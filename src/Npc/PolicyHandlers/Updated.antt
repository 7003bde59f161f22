-- ===== src/Npc/PolicyHandlers/Updated.antt =====
-- The handler for an updated policy against the one for an added policy.
use cni_genie.Base.{Text, ◌≡◌, sym, ap, ◌∙◌, some, List, ◌∷◌, ok, wrap, wrap-run, bind-run, lift}
use cni_genie.Types.{PolicyObject}
use cni_genie.Npc.World.{
  World, api, at, get_policy, annotation_of_policy, add_policy_chain_site, reset_policy_chain,
}
use cni_genie.Npc.Chains.{add_policy_chain}
use cni_genie.Npc.Policies.{
  genie_network_policy, Networks, annotation, get_logical_networks_from_annotation,
}
use cni_genie.Npc.PolicyHandlers.{
  annotation_result, networks_result, populate, repopulate, handle_network_policy_add,
  handle_network_policy_update,
}

module _ (w : World) where
  read-run :
      (policy : PolicyObject) (networks : Networks) (t : w.State)
      → get_logical_networks_from_annotation w (annotation policy.annotations genie_network_policy)
        ≡ some networks
      → annotation_result w (annotation policy.annotations genie_network_policy) t
        ≡ (ok networks, t)
  unfolding annotation_result networks_result lift
  read-run policy networks t read = ap (λ o. (networks_result o, t)) read

  added-run :
      (name ns chain : Text) (policy : PolicyObject) (networks : Networks) (s t u : w.State)
      → w.get_network_policy ns name s ≡ (ok policy, t)
      → get_logical_networks_from_annotation w (annotation policy.annotations genie_network_policy)
        ≡ some networks
      → add_policy_chain w name ns t ≡ (ok chain, u)
      → handle_network_policy_add w name ns s ≡ populate w ns chain networks u
  unfolding handle_network_policy_add
  added-run name ns chain policy networks s t u found read made =
      let ask = w.get_network_policy ns name in
      let look = annotation_result w (annotation policy.annotations genie_network_policy) in
      let make = add_policy_chain w name ns in
      bind-run (wrap (λ e. at get_policy (api e)) ask) _ s t policy
        (wrap-run _ ask s t policy found)
      ∙ bind-run (wrap (at annotation_of_policy) look) _ t t networks
          (wrap-run _ look t t networks (read-run policy networks t read))
      ∙ bind-run (wrap (at add_policy_chain_site) make) _ t u chain (wrap-run _ make t u chain made)

  updated-run :
      (name ns chain : Text) (policy : PolicyObject) (networks : Networks) (s t u : w.State)
      → w.get_network_policy ns name s ≡ (ok policy, t)
      → get_logical_networks_from_annotation w (annotation policy.annotations genie_network_policy)
        ≡ some networks
      → add_policy_chain w name ns t ≡ (ok chain, u)
      → handle_network_policy_update w name ns s ≡ repopulate w ns chain networks u
  unfolding handle_network_policy_update
  updated-run name ns chain policy networks s t u found read made =
      let ask = w.get_network_policy ns name in
      let look = annotation_result w (annotation policy.annotations genie_network_policy) in
      let make = add_policy_chain w name ns in
      bind-run (wrap (λ e. at get_policy (api e)) ask) _ s t policy
        (wrap-run _ ask s t policy found)
      ∙ bind-run (wrap (at annotation_of_policy) look) _ t t networks
          (wrap-run _ look t t networks (read-run policy networks t read))
      ∙ bind-run (wrap (at reset_policy_chain) make) _ t u chain (wrap-run _ make t u chain made)

  -- If the lister has the policy, its annotation is read as a map of at least one network, and the
  -- policy's chain is made or cleared: the handler for an updated policy does and returns exactly
  -- what the handler for an added policy does and returns.
  pub update-as_add :
      (name ns chain : Text) (policy : PolicyObject) (n : Text × List Text) (networks : Networks)
      (s t u : w.State)
      → w.get_network_policy ns name s ≡ (ok policy, t)
      → get_logical_networks_from_annotation w (annotation policy.annotations genie_network_policy)
        ≡ some (n ∷ networks)
      → add_policy_chain w name ns t ≡ (ok chain, u)
      → handle_network_policy_update w name ns s ≡ handle_network_policy_add w name ns s
  unfolding populate repopulate
  update-as_add name ns chain policy n networks s t u found read made =
      updated-run name ns chain policy (n ∷ networks) s t u found read made
      ∙ sym (added-run name ns chain policy (n ∷ networks) s t u found read made)
