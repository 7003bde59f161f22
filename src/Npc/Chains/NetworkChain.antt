-- ===== src/Npc/Chains/NetworkChain.antt =====
-- What `AddNetworkChain` leaves in the filter table.
use cni_genie.Base.{
  Text, codes, ◌≡◌, ◌≢◌, refl, ap, sym, Bool, true, false, some, List, [], ◌∷◌, ◌++◌, ok, wrap,
  wrap-ok, bind-ok, pure, ◌==◌, eq_iff, eq_refl, eq_false_of_ne, ◌∙◌, if◌then◌else◌, arith, get_or,
}
use cni_genie.Types.{LogicalNetwork}
use cni_genie.Npc.World.{World, ipt}
use cni_genie.Npc.Chains.{
  filter_table, genie_base_npc_chain, genie_network_prefix, create_iptable_chain_name, to_subnet,
  from_subnet, append_to_base, add_network_chain,
}
use cni_genie.Npc.Chains.Iptables.{
  Rule, Rules, Replaced, IsIptables, Accepts, JumpsTo, has_rule, add_unique,
}

abbrev pub reject : Rule
reject = codes "-j" ∷ codes "REJECT" ∷ []

pub network-ne-base :
    (w : World) (n : Text)
    → create_iptable_chain_name w genie_network_prefix n ≢ genie_base_npc_chain
unfolding create_iptable_chain_name
network-ne-base w n e = absurd (omega (arith, ap (λ t. get_or t 1 0) e))

four_steps :
    (r0 r1 r2 r3 r4 : Rules) (base chain : Text) (us vs both : List Rule)
    → Replaced r0 chain [] r1
    → Replaced r1 chain us r2
    → Replaced r2 base vs r3
    → Replaced r3 base both r4
    → (d : Text) → r4 d ≡ (if base == d then some both else if chain == d then some us else r0 d)
four_steps r0 r1 r2 r3 r4 base chain us vs both a b c e d = ground (arith, a d, b d, c d, e d)

-- the chain that `AddNetworkChain` builds
abbrev pub network_chain : World → LogicalNetwork → Text
network_chain w ln = create_iptable_chain_name w genie_network_prefix (ln.name ++ ln.namespace)

module _ (w : World) {rules : w.State → Rules} {header : Text → Text} {show : Text → Rule → Text}
    {accepts : Accepts} (laws : IsIptables w rules header show accepts) where
  appended :
      (r : Rule) (us : List Rule) (t : w.State) (b : Bool)
      → has_rule r us ≡ b
      → rules t genie_base_npc_chain ≡ some us
      → accepts (rules t) r
      → let out =
          (if b then pure tt else wrap ipt (w.append_unique filter_table genie_base_npc_chain r))
            t in
        (out.0 ≡ ok tt) × Replaced (rules t) genie_base_npc_chain (add_unique r us) (rules out.1)
  unfolding pure wrap
  appended r us t true e h a = rw e (refl, λ d. ground (arith, eq_iff genie_base_npc_chain d))
  appended r us t false e h a = (
    wrap-ok ipt (w.append_unique filter_table genie_base_npc_chain r) t tt
        (laws.append_unique _ r t h a),
    laws.append_unique_rules _ r t h a,
  )

  -- the rule is in the base chain once more only if it was not there
  append_to_base_lem :
      (r : Rule) (us : List Rule) (s : w.State)
      → rules s genie_base_npc_chain ≡ some us
      → accepts (rules s) r
      → ((append_to_base w r s).0 ≡ ok tt)
        × Replaced (rules s) genie_base_npc_chain (add_unique r us) (rules (append_to_base w r s).1)
  unfolding append_to_base wrap
  append_to_base_lem r us s h a =
      let look = w.exists filter_table genie_base_npc_chain r in
      let t = (look s).1 in
      let same = laws.exists_rules genie_base_npc_chain r s in
      let known = wrap-ok ipt look s _ (laws.exists genie_base_npc_chain r s h a) in
      rw (bind-ok (wrap ipt look) _ s (has_rule r us) known)
        (rw same at (appended r us t (has_rule r us) refl (rw same h) (rw same a)))

  -- If the base chain is there, and iptables accepts the reject rule and, wherever the network's
  -- chain is there, the two rules that jump to it: `AddNetworkChain` succeeds with the network's chain, which then
  -- holds the reject rule alone, whatever it held before; the base chain ends with the rules that
  -- send the traffic to and from the subnet into it, each added only if it was not there; and every
  -- other chain is as it was. The world's commands do what iptables documents.
  pub add_network_chain_lem :
      (ln : LogicalNetwork) (us : List Rule) (s : w.State)
      → rules s genie_base_npc_chain ≡ some us
      → ((t : Rules) → accepts t reject)
      → JumpsTo accepts (network_chain w ln) (to_subnet ln.sub_subnet (network_chain w ln))
      → JumpsTo accepts (network_chain w ln) (from_subnet ln.sub_subnet (network_chain w ln))
      → let chain = network_chain w ln in
        let out = add_network_chain w ln s in
        let both =
          add_unique
            (from_subnet ln.sub_subnet chain)
            (add_unique (to_subnet ln.sub_subnet chain) us) in
        (out.0 ≡ ok chain)
        × ((d : Text)
            → rules out.1 d ≡ (
                if genie_base_npc_chain == d
                then some both
                else if chain == d
                then some (reject ∷ [])
                else rules s d))
  unfolding add_network_chain pure has_rule wrap
  add_network_chain_lem ln us s h rejects jump_to jump_from =
      let chain = network_chain w ln in
      let clear = w.clear_chain filter_table chain in
      let s1 = (clear s).1 in
      let c1 = laws.clear_chain_rules chain s in
      let fill = w.append_unique filter_table chain reject in
      let s2 = (fill s1).1 in
      let empty : rules s1 chain ≡ some [] = rw (eq_refl chain) at (c1 chain) in
      let c2 = laws.append_unique_rules chain reject s1 empty (rejects _) in
      let apart = eq_false_of_ne _ _ (network-ne-base w (ln.name ++ ln.namespace)) in
      let b2 : rules s2 genie_base_npc_chain ≡ some us =
        c2 genie_base_npc_chain ∙ rw apart (c1 genie_base_npc_chain ∙ rw apart h) in
      let own2 : rules s2 chain ≡ some (reject ∷ []) = rw (eq_refl chain) at (c2 chain) in
      let to = append_to_base_lem (to_subnet ln.sub_subnet chain) us s2 b2 (jump_to _ _ own2) in
      let s3 = (append_to_base w (to_subnet ln.sub_subnet chain) s2).1 in
      let b3 = rw (eq_refl genie_base_npc_chain) at (to.1 genie_base_npc_chain) in
      let apart' : (genie_base_npc_chain == chain) ≡ false =
        eq_false_of_ne _ _ (λ e. network-ne-base w (ln.name ++ ln.namespace) (sym e)) in
      let own3 = rw apart' at (to.1 chain) ∙ own2 in
      let from =
        append_to_base_lem (from_subnet ln.sub_subnet chain) _ s3 b3 (jump_from _ _ own3) in
      rw (bind-ok (wrap ipt clear) _ s tt (wrap-ok ipt clear s tt (laws.clear_chain chain s))) (
        rw
          (bind-ok (wrap ipt fill) _ s1 tt
            (wrap-ok ipt fill s1 tt (laws.append_unique chain reject s1 empty (rejects _))))
          (rw (bind-ok (append_to_base w (to_subnet ln.sub_subnet chain)) _ s2 tt to.0) (
            rw (bind-ok (append_to_base w (from_subnet ln.sub_subnet chain)) _ s3 tt from.0) (
              refl,
              four_steps (rules s) (rules s1) (rules s2) (rules s3) _ genie_base_npc_chain chain
                  (reject ∷ []) _ _ c1 c2 to.1 from.1,
            ))))
