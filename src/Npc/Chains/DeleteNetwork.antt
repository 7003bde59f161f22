-- ===== src/Npc/Chains/DeleteNetwork.antt =====
-- What `DeleteNetworkChain` leaves in the filter table.
use cni_genie.Base.{
  Text, ◌≡◌, ◌≢◌, refl, Bool-cases, inl, inr, false, none, some, List, [], ◌∷◌, map, ok, wrap,
  wrap-ok, bind-ok, contains, ◌==◌, eq_iff, eq_refl, if◌then◌else◌, arith,
}
use cni_genie.Npc.World.{World, ipt, at, list_base, flush_before_delete, delete_chain_site}
use cni_genie.Npc.Chains.{
  filter_table, genie_base_npc_chain, delete_two, delete_iptable_chain, delete_network_chain,
}
use cni_genie.Npc.Chains.Iptables.{
  Rule, Rules, Replaced, IsIptables, Accepts, mentions, Unreferenced,
}
use cni_genie.Npc.Chains.DeleteTwo.{drop_first, delete_two-drop_first}

-- `after` is `before` without the chain `c`.
abbrev pub Removed : Rules → Text → Rules → Type 0
Removed before c after = (d : Text) → after d ≡ (if c == d then none else before d)

pub three_steps :
    (r0 r1 r2 r3 : Rules) (base chain : Text) (us vs : List Rule)
    → Replaced r0 base us r1
    → Replaced r1 chain vs r2
    → Removed r2 chain r3
    → (d : Text) → r3 d ≡ (if chain == d then none else if base == d then some us else r0 d)
three_steps r0 r1 r2 r3 base chain us vs a b c d = ground (arith, a d, b d, c d)

-- What holds of the rules of the other chains holds of all chains after a replacement.
pub mentions-Replaced :
    (before after : Rules) (e c d : Text) (us vs : List Rule)
    → Replaced before e us after
    → mentions c us ≡ false
    → (e ≢ d → before d ≡ some vs → mentions c vs ≡ false)
    → after d ≡ some vs
    → mentions c vs ≡ false
mentions-Replaced before after e c d us vs change clean others h =
    let known = change d in
    elim (Bool-cases (e == d)) [
      | inl same ↦ (let now = rw same at known in cc)
      | inr other ↦
          (let ne : e ≢ d = λ k. absurd (ground (arith, eq_iff e d, other, k)) in
            let now = rw other at known in others ne cc)
    ]

module _ (w : World) {rules : w.State → Rules} {header : Text → Text} {show : Text → Rule → Text}
    {accepts : Accepts} (laws : IsIptables w rules header show accepts) where
  -- the chain is emptied and removed
  pub delete_iptable_chain_lem :
      (c : Text) (s : w.State)
      → ((d : Text) (vs : List Rule) → c ≢ d → rules s d ≡ some vs → mentions c vs ≡ false)
      → let out = delete_iptable_chain w filter_table c s in
        (out.0 ≡ ok tt) × ((r : Rules) × Replaced (rules s) c [] r × Removed r c (rules out.1))
  unfolding delete_iptable_chain wrap mentions
  delete_iptable_chain_lem c s others =
      let clear = w.clear_chain filter_table c in
      let t = (clear s).1 in
      let change = laws.clear_chain_rules c s in
      let empty : rules t c ≡ some [] = rw (eq_refl c) at (change c) in
      let free : Unreferenced (rules t) c =
        λ d vs. mentions-Replaced (rules s) (rules t) c c d [] vs change refl (others d vs) in
      rw
        (bind-ok (wrap (λ e. at flush_before_delete (ipt e)) clear) _ s tt
          (wrap-ok (λ e. at flush_before_delete (ipt e)) clear s tt (laws.clear_chain c s)))
        (
          wrap-ok (λ e. at delete_chain_site (ipt e)) (w.delete_chain filter_table c) t tt
              (laws.delete_chain c t empty free),
          (rules t, change, laws.delete_chain_rules c t empty free),
        )

  -- If the base chain is there, the first line of its listing does not hold the network's chain, and
  -- no rule names that chain but the first two of the base chain whose lines hold it: `DeleteNetworkChain`
  -- succeeds, the network's chain is gone, the base chain is without those rules, and every other
  -- chain is as it was. The world's commands do what iptables documents.
  pub delete_network_chain_lem :
      (chain : Text) (us : List Rule) (s : w.State)
      → rules s genie_base_npc_chain ≡ some us
      → contains (header genie_base_npc_chain) chain ≡ false
      → mentions chain (drop_first 2 (show genie_base_npc_chain) chain us) ≡ false
      → ((d : Text) (vs : List Rule)
          → genie_base_npc_chain ≢ d
          → rules s d ≡ some vs
          → mentions chain vs ≡ false)
      → let out = delete_network_chain w chain s in
        let kept = drop_first 2 (show genie_base_npc_chain) chain us in
        (out.0 ≡ ok tt)
        × ((d : Text)
            → rules out.1 d ≡ (
                if chain == d
                then none
                else if genie_base_npc_chain == d
                then some kept
                else rules s d))
  unfolding delete_network_chain delete_two wrap
  delete_network_chain_lem chain us s h no_header clean others =
      let look = w.list filter_table genie_base_npc_chain in
      let t = (look s).1 in
      let lines = header genie_base_npc_chain ∷ map (show genie_base_npc_chain) us in
      let same = laws.list_rules genie_base_npc_chain s in
      let loop = delete_two w genie_base_npc_chain chain (map (show genie_base_npc_chain) us) 1 0 in
      let left = delete_two-drop_first w laws genie_base_npc_chain chain [] us t (rw same h) in
      let change = rw same at left.1 in
      let gone = delete_iptable_chain_lem chain (loop t).1 (λ d vs _.
        mentions-Replaced (rules s) _ genie_base_npc_chain chain d _ vs change clean
          (others d vs)) in
      rw
        (
          bind-ok (wrap (λ e. at list_base (ipt e)) look) _ s lines (
              wrap-ok (λ e. at list_base (ipt e)) look s lines
                (laws.list genie_base_npc_chain s h)),
          no_header,
        )
        (rw (bind-ok loop (λ _. delete_iptable_chain w filter_table chain) t tt left.0) (
          gone.0,
          three_steps (rules s) (rules (loop t).1) gone.1.0 _ genie_base_npc_chain chain _ [] change
              gone.1.1 gone.1.2,
        ))
