-- ===== src/Npc/NetworkHandlers/Updated.antt =====
-- What `handleLogicalNetworkUpdate` does with an iptables that numbers rules from one.
use cni_genie.Base.{
  Text, ℕ, suc, ◌≡◌, refl, ap, ◌∙◌, some, List, [], ◌∷◌, map, ok, err, contains, itoa, wrap,
  wrap-ok, wrap-err, bind-ok, bind-err, pure, Bool-cases, inl, inr, if◌then◌else◌,
}
use cni_genie.Types.{LogicalNetwork}
use cni_genie.Npc.World.{
  World, IptablesError, ipt, api, at, get_network, list_base, delete_base_rule,
}
use cni_genie.Npc.Chains.{filter_table, genie_base_npc_chain}
use cni_genie.Npc.Chains.Iptables.{Rule, Rules, IsIptables, Accepts}
use cni_genie.Npc.Chains.DeletePolicyRule.{some_line}
use cni_genie.Npc.NetworkHandlers.{replace_base_rules, handle_logical_network_update}
use cni_genie.Npc.PolicyHandlers.Peers.{Listed, IsLister, got}
use cni_genie.Npc.PolicyHandlers.Linked.{chain_of_network}

-- `iptables -D` fails with `x` for rule number 0 of the base chain, and changes nothing.
pub record RefusesZero (w : World) (rules : w.State → Rules) (x : IptablesError) : Type 0 where
  pub delete :
      (s : w.State) → (w.delete filter_table genie_base_npc_chain (itoa 0 ∷ []) s).0 ≡ err x
  pub delete_rules :
      (s : w.State) → rules (w.delete filter_table genie_base_npc_chain (itoa 0 ∷ []) s).1 ≡ rules s

module _ (w : World) {rules : w.State → Rules} {x : IptablesError} (refuses : RefusesZero w rules x)
    (subnet chain : Text) where
  replace_base_rules_lem :
      (lines : List Text) (pos : ℕ) (s : w.State)
      → let out = replace_base_rules w subnet chain lines pos 0 s in
        (out.0 ≡ (if some_line chain lines then err (at delete_base_rule (ipt x)) else ok tt))
        × (rules out.1 ≡ rules s)
  unfolding replace_base_rules some_line pure wrap
  replace_base_rules_lem [] pos s = (refl, refl)
  replace_base_rules_lem (l ∷ lines) pos s = elim (Bool-cases (contains l chain)) [
    | inl e ↦
        let gone = w.delete filter_table genie_base_npc_chain (itoa 0 ∷ []) in
        let failed = wrap-err (λ e. at delete_base_rule (ipt e)) gone s x (refuses.delete s) in
        rw (e, bind-err (wrap (λ e. at delete_base_rule (ipt e)) gone) _ s _ failed)
          (refl, refuses.delete_rules s)
    | inr e ↦ rw e (replace_base_rules_lem lines (suc pos) s)
  ]

-- If the lister has the network, the base chain is there, and iptables refuses to delete rule
-- number 0, as it numbers rules from one: the handler for an updated network changes no chain,
-- whatever the network's new subnet is. It fails with the error of the deletion if a line of the
-- base chain's listing holds the network's chain, and succeeds if none does. The lister answers the
-- same throughout, and the world's commands do what iptables documents.
pub update_changes_nothing :
    (w : World) {rules : w.State → Rules} {header : Text → Text} {show : Text → Rule → Text}
    {accepts : Accepts} {listed : Listed} (x : IptablesError) (ns name : Text) (ln : LogicalNetwork)
    (us : List Rule) (s : w.State)
    → IsIptables w rules header show accepts
    → IsLister w rules listed
    → RefusesZero w rules x
    → listed ns name ≡ some ln
    → rules s genie_base_npc_chain ≡ some us
    → let out = handle_logical_network_update w name ns s in
      let lines = header genie_base_npc_chain ∷ map (show genie_base_npc_chain) us in
      (out.0 ≡ (
        if some_line (chain_of_network w ns name) lines
        then err (at delete_base_rule (ipt x))
        else ok tt))
      × (rules out.1 ≡ rules s)
unfolding handle_logical_network_update wrap
update_changes_nothing w {rules} {header} {show} x ns name ln us s laws lister refuses found base =
    let ask = w.get_logical_network ns name in
    let t = (ask s).1 in
    let got_it : (ask s).0 ≡ ok ln = lister.get ns name s ∙ ap got found in
    let same : rules t ≡ rules s = lister.get_rules ns name s in
    let look = w.list filter_table genie_base_npc_chain in
    let lines = header genie_base_npc_chain ∷ map (show genie_base_npc_chain) us in
    let read : (look t).0 ≡ ok lines = laws.list genie_base_npc_chain t (rw same base) in
    let (done, left) =
      replace_base_rules_lem w refuses ln.sub_subnet (chain_of_network w ns name) lines 0
        (look t).1 in
    rw (bind-ok (wrap (λ e. at get_network (api e)) ask) _ s ln (wrap-ok _ ask s ln got_it)) (
      rw (bind-ok (wrap (λ e. at list_base (ipt e)) look) _ t lines (wrap-ok _ look t lines read))
        (done, left ∙ laws.list_rules genie_base_npc_chain t ∙ same))
