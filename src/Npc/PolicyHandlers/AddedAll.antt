-- ===== src/Npc/PolicyHandlers/AddedAll.antt =====
-- What `handleNetworkPolicyAdd` leaves in the filter table, with the networks' handler that it calls.
use cni_genie.Base.{
  Text, ◌≡◌, refl, ap, ◌∙◌, true, false, Option, none, some, List, [], ◌∷◌, ok, wrap, wrap-ok,
  bind-ok, pure, lift, trim_space, trim_space-trim, ◌==◌, eq_refl, Bool-cases, inl, inr,
}
use cni_genie.Types.{PolicyObject}
use cni_genie.Npc.World.{World, api, at, get_policy, annotation_of_policy, add_policy_chain_site}
use cni_genie.Npc.Chains.{genie_base_npc_chain, jump, exists_chain, add_policy_chain}
use cni_genie.Npc.Chains.Iptables.{Rule, Rules, IsIptables, Accepts, JumpsTo}
use cni_genie.Npc.Chains.Put.{IsThere}
use cni_genie.Npc.Policies.{
  genie_network_policy, Networks, annotation, get_logical_networks_from_annotation,
}
use cni_genie.Npc.Policies.Lister.{ListsPolicies}
use cni_genie.Npc.PolicyHandlers.{
  link_policy, populate_network, populate_policy_chain, populate, annotation_result,
  networks_result, handle_network_policy_add,
}
use cni_genie.Npc.PolicyHandlers.Peers.{Listed, IsLister, AcceptsPeers}
use cni_genie.Npc.PolicyHandlers.Linked.{
  cleared, linked, chain_of_network, chain_of_policy, visited,
}
use cni_genie.Npc.PolicyHandlers.Added.{link_lem}
use cni_genie.Npc.PolicyHandlers.Cleared.{add_policy_chain_lem}
use cni_genie.Npc.PolicyHandlers.Chained.{PoliciesThere}
use cni_genie.Npc.PolicyHandlers.NewNetwork.{
  ListsMissing, AcceptsNetworks, exists_missing, built_lem,
}
use cni_genie.Npc.PolicyHandlers.Selected.{
  network_built, network_selected, selected, all_selected, selected-IsThere, selected-PoliciesThere,
}

module _ (w : World) {rules : w.State → Rules} {header : Text → Text} {show : Text → Rule → Text}
    {accepts : Accepts} (laws : IsIptables w rules header show accepts) {listed : Listed}
    (lister : IsLister w rules listed) (peers_accepted : AcceptsPeers accepts listed)
    (ns chain : Text) (policies : List PolicyObject) (lists : ListsPolicies w rules ns policies)
    (missing : ListsMissing w rules) (accepted : AcceptsNetworks accepts w listed ns)
    (jumps : JumpsTo accepts chain (jump chain)) where
  linked_full :
      (selector : Text) (peers : List Text) (us : List Rule) (r : Rules)
      → (trim_space selector == []) ≡ false
      → linked w listed ns chain (selector, peers) r
        ≡ network_selected w listed policies ns chain (trim_space selector) peers (some us) r
  linked_full selector peers us r full = rw full refl

  full_lem :
      (selector : Text) (peers : List Text) (o : Option (List Rule)) (s : w.State)
      → (trim_space selector == []) ≡ false
      → rules s (chain_of_network w ns (trim_space selector)) ≡ o
      → IsThere (rules s) genie_base_npc_chain
      → IsThere (rules s) chain
      → PoliciesThere w ns (rules s) policies
      → let out = populate_network w ns chain selector peers s in
        (out.0 ≡ ok tt)
        × (rules out.1
            ≡ network_selected w listed policies ns chain (trim_space selector) peers o (rules s))
  unfolding populate_network link_policy
  full_lem selector peers (some us) s full e base there known =
      let (done, left) =
        link_lem w laws lister peers_accepted ns chain selector peers s jumps there (us, e) full in
      (done, left ∙ linked_full selector peers us (rules s) full)
  full_lem selector peers none s full e base there known =
      let name = trim_space selector in
      let net = chain_of_network w ns name in
      let (not_there, same) =
        exists_missing w laws lister peers_accepted ns chain policies lists missing accepted net s
          e in
      let t = (exists_chain w net s).1 in
      let (done, left) =
        built_lem w laws lister peers_accepted ns chain policies lists missing accepted name peers
          (listed ns name) t (trim_space-trim selector) refl (rw same base) (rw same there)
          (rw same known) in
      rw (full, bind-ok (exists_chain w net) _ s false not_there)
        (
          done,
          left ∙ ap (network_built w listed policies ns chain name peers (listed ns name)) same,
        )

  blank_lem :
      (selector : Text) (peers : List Text) (s : w.State)
      → (trim_space selector == []) ≡ true
      → let out = populate_network w ns chain selector peers s in
        (out.0 ≡ ok tt)
        × (rules out.1 ≡ selected w listed policies ns chain selector peers (rules s))
  unfolding populate_network pure
  blank_lem selector peers s e = rw e (refl, refl)

  select_lem :
      (selector : Text) (peers : List Text) (s : w.State)
      → IsThere (rules s) genie_base_npc_chain
      → IsThere (rules s) chain
      → PoliciesThere w ns (rules s) policies
      → let out = populate_network w ns chain selector peers s in
        (out.0 ≡ ok tt)
        × (rules out.1 ≡ selected w listed policies ns chain selector peers (rules s))
  select_lem selector peers s base there known = elim (Bool-cases (trim_space selector == [])) [
    | inl e ↦ blank_lem selector peers s e
    | inr full ↦
        let net = chain_of_network w ns (trim_space selector) in
        let (done, left) = full_lem selector peers (rules s net) s full refl base there known in
        (done, rw full left)
  ]

  pub select_all_lem :
      (networks : Networks) (s : w.State)
      → IsThere (rules s) genie_base_npc_chain
      → IsThere (rules s) chain
      → PoliciesThere w ns (rules s) policies
      → let out = populate_policy_chain w ns chain networks s in
        (out.0 ≡ ok tt) × (rules out.1 ≡ all_selected w listed policies ns chain networks (rules s))
  unfolding populate_policy_chain pure
  select_all_lem [] s base there known = (refl, refl)
  select_all_lem ((selector, peers) ∷ networks) s base there known =
      let run = populate_network w ns chain selector peers in
      let (done, left) = select_lem selector peers s base there known in
      let t = (run s).1 in
      let base' : IsThere (rules t) genie_base_npc_chain = rw left (
        selected-IsThere w listed policies ns chain selector peers (rules s) genie_base_npc_chain
          base) in
      let there' : IsThere (rules t) chain =
        rw left
          (selected-IsThere w listed policies ns chain selector peers (rules s) chain there) in
      let known' : PoliciesThere w ns (rules t) policies = rw left (
        selected-PoliciesThere w listed policies ns chain selector peers policies (rules s)
          known) in
      let (over, after) = select_all_lem networks t base' there' known' in
      rw (bind-ok run _ s tt done)
        (over, after ∙ ap (all_selected w listed policies ns chain networks) left)

  populate_all_lem :
      (networks : Networks) (s : w.State)
      → IsThere (rules s) genie_base_npc_chain
      → IsThere (rules s) chain
      → PoliciesThere w ns (rules s) policies
      → let out = populate w ns chain networks s in
        (out.0 ≡ ok tt)
        × (rules out.1 ≡ all_selected w listed policies ns chain (visited w networks) (rules s))
  unfolding populate pure
  populate_all_lem [] s base there known = (refl, refl)
  populate_all_lem (n ∷ networks) s base there known =
      select_all_lem (w.range (n ∷ networks)) s base there known

-- If the lister has the policy, and its annotation is read as a map of networks: the handler for an
-- added policy succeeds, whether or not the networks that it selects have their chains. The policy's
-- chain holds no more what it held. For each selected network in turn, its name not blank: a network
-- with a chain gets the jump to the policy's chain on top, unless it has it; a network without one
-- that the lister has gets its chain as if it had been added by its own handler, for all its
-- policies; and then, in both cases, the policy's chain gets the rules for the peers that are listed.
-- Nothing happens for a network without a chain that the lister does not have, and the other chains
-- are as they were. The base chain is there, and so is the chain of every policy of the namespace
-- with an annotation; the listers answer the same throughout, the world's commands do what iptables
-- documents, and iptables accepts the rules for the listed networks' subnets and the jumps to chains
-- that are there.
pub handle_network_policy_add-all_selected :
    (w : World) {rules : w.State → Rules} {header : Text → Text} {show : Text → Rule → Text}
    {accepts : Accepts} {listed : Listed} (ns name : Text) (s : w.State) (policy : PolicyObject)
    (networks : Networks) (policies : List PolicyObject)
    → IsIptables w rules header show accepts
    → IsLister w rules listed
    → AcceptsPeers accepts listed
    → ListsPolicies w rules ns policies
    → ListsMissing w rules
    → AcceptsNetworks accepts w listed ns
    → JumpsTo accepts (chain_of_policy w ns name) (jump (chain_of_policy w ns name))
    → (w.get_network_policy ns name s).0 ≡ ok policy
    → rules (w.get_network_policy ns name s).1 ≡ rules s
    → get_logical_networks_from_annotation w (annotation policy.annotations genie_network_policy)
      ≡ some networks
    → IsThere (cleared (chain_of_policy w ns name) (rules s)) genie_base_npc_chain
    → PoliciesThere w ns (cleared (chain_of_policy w ns name) (rules s)) policies
    → ((handle_network_policy_add w name ns s).0 ≡ ok tt)
      × (rules (handle_network_policy_add w name ns s).1
          ≡ all_selected w listed policies ns
              (chain_of_policy w ns name)
              (visited w networks)
              (cleared (chain_of_policy w ns name) (rules s)))
unfolding handle_network_policy_add annotation_result networks_result lift wrap
handle_network_policy_add-all_selected w {rules} {listed = listed} ns name s policy networks
      policies laws lister peers_accepted lists missing accepted jumps found same read base known =
    let chain = chain_of_policy w ns name in
    let ask = w.get_network_policy ns name in
    let t = (ask s).1 in
    let (made, clear) = add_policy_chain_lem w laws ns name t in
    let u = (add_policy_chain w name ns t).1 in
    let left : rules u ≡ cleared chain (rules s) = clear ∙ ap (cleared chain) same in
    let there : IsThere (rules u) chain = rw left ([], rw (eq_refl chain) refl) in
    let (done, rest) =
      populate_all_lem w laws lister peers_accepted ns chain policies lists missing accepted jumps
        networks u (rw left base) there (rw left known) in
    rw (bind-ok (wrap (λ e. at get_policy (api e)) ask) _ s policy (wrap-ok _ ask s policy found)) (
      rw
        (bind-ok
          (wrap (at annotation_of_policy)
            (annotation_result w (annotation policy.annotations genie_network_policy)))
          _ t networks (rw read refl))
        (rw
          (bind-ok (wrap (at add_policy_chain_site) (add_policy_chain w name ns)) _ t chain
            (wrap-ok _ (add_policy_chain w name ns) t chain made))
          (done, rest ∙ ap (all_selected w listed policies ns chain (visited w networks)) left)))
