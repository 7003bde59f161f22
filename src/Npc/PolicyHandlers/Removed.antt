-- ===== src/Npc/PolicyHandlers/Removed.antt =====
-- What `handleNetworkPolicyDelete` leaves in the filter table.
use cni_genie.Base.{
  Text, ◌≡◌, ◌≢◌, refl, ap, ◌∙◌, true, false, none, some, List, [], ◌∷◌, ◌++◌, map, ok, wrap,
  wrap-ok, bind-run, attempt-run, lift, pure, contains, trim_space, ◌==◌, if◌then◌else◌,
}
use cni_genie.Npc.World.{World, Error, at, delete_policy_chain}
use cni_genie.Npc.Chains.{
  filter_table, genie_policy_prefix, delete_network_chain_rule, delete_iptable_chain,
}
use cni_genie.Npc.Chains.Iptables.{Rule, Rules, Replaced, IsIptables, Accepts, mentions}
use cni_genie.Npc.Chains.DeleteNetwork.{three_steps, mentions-Replaced, delete_iptable_chain_lem}
use cni_genie.Npc.Chains.DeletePolicyRule.{some_line, delete_network_chain_rule_lem}
use cni_genie.Npc.Policies.{Networks, get_logical_networks_from_annotation}
use cni_genie.Npc.PolicyHandlers.{
  annotation_result, networks_result, unlink_networks, handle_network_policy_delete,
}
use cni_genie.Npc.PolicyHandlers.Linked.{chain_of_network, chain_of_policy}

module _ (w : World) {rules : w.State → Rules} {header : Text → Text} {show : Text → Rule → Text}
    {accepts : Accepts} (laws : IsIptables w rules header show accepts) where
  -- the listing of a chain without one rule
  abbrev pub lines_of : Text → List Rule → List Text
  lines_of c us = header c ∷ map (show c) us

  -- the network that the policy selects keeps its chain, without the policy's jump
  unlinked :
      (ns chain lnw : Text) (peers : List Text) (pre : List Rule) (r : Rule) (post : List Rule)
      (s : w.State)
      → let net = chain_of_network w ns (trim_space lnw) in
        rules s net ≡ some (pre ++ r ∷ post)
        → some_line chain (lines_of net pre) ≡ false
        → contains (show net r) chain ≡ true
        → some_line chain (map (show net) post) ≡ false
        → some_line genie_policy_prefix (lines_of net (pre ++ post)) ≡ true
        → (t : w.State) × Replaced (rules s) net (pre ++ post) (rules t)
          × (unlink_networks w ns chain ((lnw, peers) ∷ []) s ≡ (ok tt, t))
  unfolding unlink_networks pure
  unlinked ns chain lnw peers pre r post s there before this after more =
      let net = chain_of_network w ns (trim_space lnw) in
      let (t, change, run) =
        delete_network_chain_rule_lem w laws net chain pre r post s there before this after in
      let done : delete_network_chain_rule w net chain s ≡ (ok tt, t) = run ∙ rw more refl in
      (t, change, attempt-run {F = Error} (delete_network_chain_rule w net chain) _ s t tt done)

  -- If the annotation that the key carries names one network, whose chain has exactly one line with
  -- the policy's chain and some line of another policy, and no other rule names the policy's chain:
  -- the handler for a deleted policy succeeds, the policy's chain is gone, the network's chain is
  -- without that rule, and every other chain is as it was. The world's commands do what iptables
  -- documents.
  pub handle_network_policy_delete_lem :
      (name ns text lnw : Text) (peers : List Text) (networks : Networks) (pre : List Rule)
      (r : Rule) (post : List Rule) (s : w.State)
      → let chain = chain_of_policy w ns name in
        let net = chain_of_network w ns (trim_space lnw) in
        get_logical_networks_from_annotation w text ≡ some networks
        → w.range networks ≡ (lnw, peers) ∷ []
        → rules s net ≡ some (pre ++ r ∷ post)
        → some_line chain (lines_of net pre) ≡ false
        → contains (show net r) chain ≡ true
        → some_line chain (map (show net) post) ≡ false
        → some_line genie_policy_prefix (lines_of net (pre ++ post)) ≡ true
        → mentions chain (pre ++ post) ≡ false
        → ((d : Text) (vs : List Rule)
            → net ≢ d
            → chain ≢ d
            → rules s d ≡ some vs
            → mentions chain vs ≡ false)
        → let out = handle_network_policy_delete w name ns text s in
          (out.0 ≡ ok tt)
          × ((d : Text)
              → rules out.1 d
                ≡ (if chain == d then none else if net == d then some (pre ++ post) else rules s d))
  unfolding handle_network_policy_delete annotation_result networks_result lift wrap
  handle_network_policy_delete_lem name ns text lnw peers networks pre r post s read order there
        before this after more clean others =
      let chain = chain_of_policy w ns name in
      let net = chain_of_network w ns (trim_space lnw) in
      let (t, change, run) =
        unlinked ns chain lnw peers pre r post s there before this after more in
      let gone = delete_iptable_chain_lem w laws chain t λ d vs ne.
        mentions-Replaced (rules s) (rules t) net chain d (pre ++ post) vs change clean
          (λ ne'. others d vs ne' ne) in
      let unlink : unlink_networks w ns chain (w.range networks) s ≡ (ok tt, t) = rw order run in
      let known : annotation_result w text s ≡ (ok networks, s) =
        ap (λ o. (networks_result o, s)) read in
      rw (bind-run (annotation_result w text) _ s s networks known) (
        rw (bind-run (unlink_networks w ns chain (w.range networks)) _ s t tt unlink) (
          wrap-ok (at delete_policy_chain) (delete_iptable_chain w filter_table chain) t tt gone.0,
          three_steps (rules s) (rules t) gone.1.0 _ net chain (pre ++ post) [] change gone.1.1
              gone.1.2,
        ))
