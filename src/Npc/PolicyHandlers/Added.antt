-- ===== src/Npc/PolicyHandlers/Added.antt =====
-- What `handleNetworkPolicyAdd` leaves in the filter table.
use cni_genie.Base.{
  Text, ◌≡◌, ◌≢◌, refl, arith, ap, ◌∙◌, true, false, some, List, [], ◌∷◌, ok, wrap, wrap-ok,
  bind-ok, attempt-bind_ok, pure, lift, trim_space, ◌==◌, eq_iff, Bool-cases, inl, inr, ◌⊎◌,
}
use cni_genie.Types.{PolicyObject}
use cni_genie.Npc.World.{
  World, Error, api, at, get_policy, annotation_of_policy, add_policy_chain_site,
}
use cni_genie.Npc.Chains.{jump, insert_rule, exists_chain, add_policy_chain}
use cni_genie.Npc.Chains.Iptables.{Rule, Rules, IsIptables, Accepts, JumpsTo}
use cni_genie.Npc.Chains.Put.{put, IsThere, on_top, put-IsThere, exists_chain_lem, insert_rule_lem}
use cni_genie.Npc.Policies.{
  genie_network_policy, Networks, annotation, get_logical_networks_from_annotation,
}
use cni_genie.Npc.PolicyHandlers.{
  link_policy, peers_after, populate_network, populate_policy_chain, populate, annotation_result,
  networks_result, handle_network_policy_add,
}
use cni_genie.Npc.PolicyHandlers.Peers.{Listed, IsLister, AcceptsPeers, populate_peers_lem}
use cni_genie.Npc.PolicyHandlers.Cleared.{add_policy_chain_lem}
use cni_genie.Npc.PolicyHandlers.Linked.{
  cleared, chain_of_network, chain_of_policy, linked, all_linked, Built, visited, linked-IsThere,
  linked-Built,
}

not_empty_of : (t : Text) → (t == []) ≡ false → t ≢ []
not_empty_of t h e = ground (arith, eq_iff t [])

module _ (w : World) {rules : w.State → Rules} {header : Text → Text} {show : Text → Rule → Text}
    {accepts : Accepts} (laws : IsIptables w rules header show accepts) {listed : Listed}
    (lister : IsLister w rules listed) (peers_accepted : AcceptsPeers accepts listed) where
  pub link_lem :
      (ns chain selector : Text) (peers : List Text) (s : w.State)
      → JumpsTo accepts chain (jump chain)
      → IsThere (rules s) chain
      → IsThere (rules s) (chain_of_network w ns (trim_space selector))
      → (trim_space selector == []) ≡ false
      → ((populate_network w ns chain selector peers s).0 ≡ ok tt)
        × (rules (populate_network w ns chain selector peers s).1
            ≡ linked w listed ns chain (selector, peers) (rules s))
  unfolding populate_network link_policy peers_after
  link_lem ns chain selector peers s jumps (us, there) (vs, net) full =
      let ln_chain = chain_of_network w ns (trim_space selector) in
      let (yes_there, same) = exists_chain_lem w laws ln_chain s vs net in
      let t = (exists_chain w ln_chain s).1 in
      let (done, top) =
        insert_rule_lem w laws ln_chain (jump chain) t vs (rw same net)
          (jumps _ us (rw same there)) in
      let u = (insert_rule w ln_chain 1 (jump chain) t).1 in
      let placed = top ∙ ap (put ln_chain (on_top (jump chain))) same in
      let still : IsThere (rules u) chain =
        rw placed (put-IsThere ln_chain chain _ (rules s) (us, there)) in
      let (over, left) = populate_peers_lem w laws lister peers_accepted chain ns peers u still in
      rw (full, bind-ok (exists_chain w ln_chain) _ s true yes_there)
        (rw (attempt-bind_ok {F = Error} (insert_rule w ln_chain 1 (jump chain)) _ t tt done)
          (over, left ∙ ap (put chain _) placed))

  skipped :
      (ns chain selector : Text) (peers : List Text) (s : w.State)
      → (trim_space selector == []) ≡ true
      → ((populate_network w ns chain selector peers s).0 ≡ ok tt)
        × (rules (populate_network w ns chain selector peers s).1
            ≡ linked w listed ns chain (selector, peers) (rules s))
  unfolding populate_network pure
  skipped ns chain selector peers s e = rw e (refl, refl)

  populate_network_lem :
      (ns chain selector : Text) (peers : List Text) (s : w.State)
      → JumpsTo accepts chain (jump chain)
      → IsThere (rules s) chain
      → ((trim_space selector ≡ [])
          ⊎ IsThere (rules s) (chain_of_network w ns (trim_space selector)))
      → ((populate_network w ns chain selector peers s).0 ≡ ok tt)
        × (rules (populate_network w ns chain selector peers s).1
            ≡ linked w listed ns chain (selector, peers) (rules s))
  populate_network_lem ns chain selector peers s jumps there b =
      elim (Bool-cases (trim_space selector == [])) [
        | inl e ↦ skipped ns chain selector peers s e
        | inr full ↦ elim b [
          | inl e ↦ absurd (not_empty_of (trim_space selector) full e)
          | inr net ↦ link_lem ns chain selector peers s jumps there net full
        ]
      ]

  populate_policy_chain_lem :
      (ns chain : Text) (networks : Networks) (s : w.State)
      → JumpsTo accepts chain (jump chain)
      → IsThere (rules s) chain
      → Built w ns networks (rules s)
      → ((populate_policy_chain w ns chain networks s).0 ≡ ok tt)
        × (rules (populate_policy_chain w ns chain networks s).1
            ≡ all_linked w listed ns chain networks (rules s))
  unfolding populate_policy_chain pure
  populate_policy_chain_lem ns chain [] s jumps there built = (refl, refl)
  populate_policy_chain_lem ns chain ((selector, peers) ∷ networks) s jumps there (b, built) =
      let (done, left) = populate_network_lem ns chain selector peers s jumps there b in
      let t = (populate_network w ns chain selector peers s).1 in
      let n : Text × List Text = (selector, peers) in
      let there' : IsThere (rules t) chain =
        rw left (linked-IsThere w listed ns chain n (rules s) chain there) in
      let built' : Built w ns networks (rules t) =
        rw left (linked-Built w listed ns chain n networks (rules s) built) in
      let (over, rest) = populate_policy_chain_lem ns chain networks t jumps there' built' in
      rw (bind-ok (populate_network w ns chain selector peers) _ s tt done)
        (over, rest ∙ ap (all_linked w listed ns chain networks) left)

  populate_lem :
      (ns chain : Text) (networks : Networks) (s : w.State)
      → JumpsTo accepts chain (jump chain)
      → IsThere (rules s) chain
      → Built w ns (visited w networks) (rules s)
      → ((populate w ns chain networks s).0 ≡ ok tt)
        × (rules (populate w ns chain networks s).1
            ≡ all_linked w listed ns chain (visited w networks) (rules s))
  unfolding populate pure
  populate_lem ns chain [] s jumps there built = (refl, refl)
  populate_lem ns chain (n ∷ networks) s jumps there built =
      populate_policy_chain_lem ns chain (w.range (n ∷ networks)) s jumps there built

  -- If the lister has the policy and its annotation is read as a map of networks, and each network
  -- that it selects by a name that is not blank has its chain in the filter table: the handler for
  -- an added policy succeeds, and leaves the policy's chain with the rules that accept the traffic
  -- of the peers that are listed, without what it held before; each selected network's chain has
  -- the jump to the policy's chain, on top unless it had it; and the other chains are as they were.
  -- The lister of networks answers the same throughout, the world's commands do what iptables
  -- documents, and iptables accepts the jump wherever the policy's chain is there and the rules for
  -- the listed networks' subnets.
  pub handle_network_policy_add_lem :
      (ns name : Text) (s : w.State) (policy : PolicyObject) (networks : Networks)
      → (w.get_network_policy ns name s).0 ≡ ok policy
      → rules (w.get_network_policy ns name s).1 ≡ rules s
      → get_logical_networks_from_annotation w (annotation policy.annotations genie_network_policy)
        ≡ some networks
      → JumpsTo accepts (chain_of_policy w ns name) (jump (chain_of_policy w ns name))
      → Built w ns (visited w networks) (cleared (chain_of_policy w ns name) (rules s))
      → ((handle_network_policy_add w name ns s).0 ≡ ok tt)
        × (rules (handle_network_policy_add w name ns s).1
            ≡ all_linked w listed ns
                (chain_of_policy w ns name)
                (visited w networks)
                (cleared (chain_of_policy w ns name) (rules s)))
  unfolding handle_network_policy_add annotation_result networks_result lift wrap
  handle_network_policy_add_lem ns name s policy networks found same read jumps built =
      let chain = chain_of_policy w ns name in
      let ask = w.get_network_policy ns name in
      let t = (ask s).1 in
      let (made, clear) = add_policy_chain_lem w laws ns name t in
      let u = (add_policy_chain w name ns t).1 in
      let left : rules u ≡ cleared chain (rules s) = clear ∙ ap (cleared chain) same in
      let there : IsThere (rules u) chain = rw left ([], rw ((eq_iff chain chain).1 refl) refl) in
      let (done, rest) = populate_lem ns chain networks u jumps there (rw left built) in
      rw (bind-ok (wrap (λ e. at get_policy (api e)) ask) _ s policy (wrap-ok _ ask s policy found))
        (rw
          (bind-ok
            (wrap (at annotation_of_policy)
              (annotation_result w (annotation policy.annotations genie_network_policy)))
            _ t networks (rw read refl))
          (rw
            (bind-ok (wrap (at add_policy_chain_site) (add_policy_chain w name ns)) _ t chain
              (wrap-ok _ (add_policy_chain w name ns) t chain made))
            (done, rest ∙ ap (all_linked w listed ns chain (visited w networks)) left)))
