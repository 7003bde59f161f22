-- ===== src/Npc/PolicyHandlers/Relinked.antt =====
-- What `handleNetworkPolicyUpdate` leaves in the filter table where the policy selects networks.
use cni_genie.Base.{
  Text, ◌≡◌, ◌≢◌, refl, ap, ◌∙◌, some, List, [], ◌∷◌, ok, trim_space, ◌==◌, eq_false_of_ne,
  Bool-cases, inl, inr,
}
use cni_genie.Types.{PolicyObject}
use cni_genie.Npc.World.{World}
use cni_genie.Npc.Chains.{jump, add_policy_chain}
use cni_genie.Npc.Chains.Iptables.{Rule, Rules, IsIptables, Accepts, JumpsTo}
use cni_genie.Npc.Policies.{
  genie_network_policy, Networks, annotation, get_logical_networks_from_annotation,
}
use cni_genie.Npc.PolicyHandlers.{handle_network_policy_update}
use cni_genie.Npc.PolicyHandlers.Peers.{Listed, IsLister, AcceptsPeers}
use cni_genie.Npc.PolicyHandlers.Linked.{
  cleared, chain_of_network, chain_of_policy, linked, all_linked, Built,
}
use cni_genie.Npc.PolicyHandlers.Added.{handle_network_policy_add_lem}
use cni_genie.Npc.PolicyHandlers.Cleared.{add_policy_chain_lem}
use cni_genie.Npc.PolicyHandlers.Updated.{update-as_add}

-- No network of the list has the chain.
abbrev pub NoChainOf : World → Text → Networks → Text → Type 0
NoChainOf w ns [] d = Unit
NoChainOf w ns ((selector, _) ∷ networks) d =
    (chain_of_network w ns (trim_space selector) ≢ d) × NoChainOf w ns networks d

linked-other :
    (w : World) (listed : Listed) (ns chain : Text) (n : Text × List Text) (r : Rules) (d : Text)
    → chain ≢ d
    → chain_of_network w ns (trim_space n.0) ≢ d
    → linked w listed ns chain n r d ≡ r d
linked-other w listed ns chain (selector, peers) r d h k =
    elim (Bool-cases (trim_space selector == [])) [
      | inl e ↦ rw e refl
      | inr e ↦ rw (e, eq_false_of_ne chain d h, eq_false_of_ne _ d k) refl
    ]

all_linked-other :
    (w : World) (listed : Listed) (ns chain : Text) (networks : Networks) (r : Rules) (d : Text)
    → chain ≢ d
    → NoChainOf w ns networks d
    → all_linked w listed ns chain networks r d ≡ r d
all_linked-other w listed ns chain [] r d h k = refl
all_linked-other w listed ns chain ((selector, peers) ∷ networks) r d h (k, ks) =
    all_linked-other w listed ns chain networks _ d h ks
    ∙ linked-other w listed ns chain (selector, peers) r d h k

module _ (w : World) {rules : w.State → Rules} {header : Text → Text} {show : Text → Rule → Text}
    {accepts : Accepts} (laws : IsIptables w rules header show accepts) {listed : Listed}
    (lister : IsLister w rules listed) (peers_accepted : AcceptsPeers accepts listed) where
  -- If the lister has the policy and its annotation is read as a map of at least one network, and
  -- each network that it selects by a name that is not blank has its chain in the filter table: the
  -- handler for an updated policy succeeds, and a chain that is neither the policy's nor that of a
  -- selected network is as it was, also where it jumps to the policy's chain. The lister of networks
  -- answers the same throughout, the world's commands do what iptables documents, and iptables
  -- accepts the jump wherever the policy's chain is there and the rules for the listed networks'
  -- subnets.
  pub update_keeps_others :
      (ns name : Text) (s : w.State) (policy : PolicyObject) (n : Text × List Text)
      (networks : Networks) (d : Text)
      → (w.get_network_policy ns name s).0 ≡ ok policy
      → rules (w.get_network_policy ns name s).1 ≡ rules s
      → get_logical_networks_from_annotation w (annotation policy.annotations genie_network_policy)
        ≡ some (n ∷ networks)
      → JumpsTo accepts (chain_of_policy w ns name) (jump (chain_of_policy w ns name))
      → Built w ns (w.range (n ∷ networks)) (cleared (chain_of_policy w ns name) (rules s))
      → chain_of_policy w ns name ≢ d
      → NoChainOf w ns (w.range (n ∷ networks)) d
      → ((handle_network_policy_update w name ns s).0 ≡ ok tt)
        × (rules (handle_network_policy_update w name ns s).1 d ≡ rules s d)
  update_keeps_others ns name s policy n networks d found same read jumps built apart none_has =
      let chain = chain_of_policy w ns name in
      let t = (w.get_network_policy ns name s).1 in
      let made = (add_policy_chain_lem w laws ns name t).0 in
      let u = (add_policy_chain w name ns t).1 in
      let (done, left) =
        handle_network_policy_add_lem w laws lister peers_accepted ns name s policy (n ∷ networks)
          found same read jumps built in
      rw
        (update-as_add w name ns chain policy n networks s t u (ap (λ o. (o, t)) found) read
          (ap (λ o. (o, u)) made))
        (
          done,
          ap (λ r. r d) left
              ∙ all_linked-other w listed ns chain (w.range (n ∷ networks)) _ d apart none_has
              ∙ rw (eq_false_of_ne chain d apart) refl,
        )
