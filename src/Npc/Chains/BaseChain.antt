-- ===== src/Npc/Chains/BaseChain.antt =====
-- What `CreateBaseChain` leaves in the filter table.
use cni_genie.Base.{
  Text, ◌≡◌, ◌≢◌, refl, ap, Bool, true, false, some, List, [], ◌∷◌, ok, wrap, wrap-ok, bind-ok,
  pure, ◌==◌, eq_iff, eq_refl, eq_false_of_ne, ◌∙◌, if◌then◌else◌, arith, get_or,
}
use cni_genie.Npc.World.{World, ipt, at, iptables_init, base_exists, base_insert}
use cni_genie.Npc.Chains.{
  filter_table, forward_chain, genie_base_npc_chain, jump, base_rule, create_base_chain,
}
use cni_genie.Npc.Chains.Iptables.{Rule, Rules, Replaced, IsIptables, Accepts, JumpsTo, has_rule}

pub base-ne-forward : genie_base_npc_chain ≢ forward_chain
base-ne-forward e = absurd (omega (arith, ap (λ t. get_or t 0 0) e))

abbrev to_base : Rule
to_base = jump genie_base_npc_chain

module _ (w : World) {rules : w.State → Rules} {header : Text → Text} {show : Text → Rule → Text}
    {accepts : Accepts} (laws : IsIptables w rules header show accepts) where
  -- the jump is put on top unless it is there
  base_rule_lem :
      (us : List Rule) (t : w.State) (b : Bool)
      → rules t forward_chain ≡ some us
      → accepts (rules t) to_base
      → let out = base_rule w b t in
        (out.0 ≡ ok tt)
        × Replaced (rules t) forward_chain (if b then us else to_base ∷ us) (rules out.1)
  unfolding base_rule pure wrap
  base_rule_lem us t true h a = (refl, λ d. ground (arith, eq_iff forward_chain d))
  base_rule_lem us t false h a = (
    wrap-ok (λ e. at base_insert (ipt e)) (w.insert filter_table forward_chain 1 to_base) t tt
        (laws.insert_top _ to_base t h a),
    laws.insert_top_rules _ to_base t h a,
  )

  -- If the forward chain is there, iptables starts, and it accepts a jump to the base chain where
  -- that is there: `CreateBaseChain` succeeds, the base chain is there and empty whatever it held
  -- before, the forward chain has the jump on top unless it had it anywhere before, and every other
  -- chain is as it was. The world's commands do what iptables documents.
  pub create_base_chain_lem :
      (us : List Rule) (s : w.State)
      → (w.new s).0 ≡ ok tt
      → rules s forward_chain ≡ some us
      → JumpsTo accepts genie_base_npc_chain to_base
      → let out = create_base_chain w s in
        let linked = if has_rule to_base us then us else to_base ∷ us in
        (out.0 ≡ ok tt)
        × ((d : Text)
            → rules out.1 d ≡ (
                if forward_chain == d
                then some linked
                else if genie_base_npc_chain == d
                then some []
                else rules s d))
  unfolding create_base_chain wrap
  create_base_chain_lem us s started h jumps =
      let start = w.new in
      let s1 = (start s).1 in
      let same1 = laws.new_rules s in
      let clear = w.clear_chain filter_table genie_base_npc_chain in
      let s2 = (clear s1).1 in
      let c2 = laws.clear_chain_rules genie_base_npc_chain s1 in
      let empty : rules s2 genie_base_npc_chain ≡ some [] =
        rw (eq_refl genie_base_npc_chain) at (c2 genie_base_npc_chain) in
      let f2 : rules s2 forward_chain ≡ some us =
        c2 forward_chain ∙ rw (eq_false_of_ne _ _ base-ne-forward, same1) h in
      let look = w.exists filter_table forward_chain to_base in
      let s3 = (look s2).1 in
      let same3 = laws.exists_rules forward_chain to_base s2 in
      let ready = jumps _ _ empty in
      let known =
        wrap-ok (λ e. at base_exists (ipt e)) look s2 _
          (laws.exists forward_chain to_base s2 f2 ready) in
      let done =
        rw same3 at (base_rule_lem us s3 (has_rule to_base us) (rw same3 f2) (rw same3 ready)) in
      rw
        (
          bind-ok (wrap (λ e. at iptables_init (ipt e)) start) _ s tt
              (wrap-ok (λ e. at iptables_init (ipt e)) start s tt started),
          bind-ok (wrap ipt clear) _ s1 tt
              (wrap-ok ipt clear s1 tt (laws.clear_chain genie_base_npc_chain s1)),
          bind-ok (wrap (λ e. at base_exists (ipt e)) look) _ s2 (has_rule to_base us) known,
        )
        (done.0, λ d. ground (arith, done.1 d, c2 d, ap (λ (r : Rules). r d) same1))
