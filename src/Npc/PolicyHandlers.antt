-- ===== src/Npc/PolicyHandlers.antt =====
-- The handlers for network policies of
-- controllers/network-policy-controller/networkpolicycontroller.go. What the source only logs is
-- dropped; where it logs an error and goes on, so does the model.
pub mod Peers
pub mod Linked
pub mod Cleared
pub mod Added
pub mod Chained
pub mod Selected
pub mod NewNetwork
pub mod AddedAll
pub mod Updated
pub mod Relinked
pub mod Removed
pub mod RemovedAll
pub mod Unselected
use cni_genie.Base.{
  Text, Option, none, some, Bool, true, false, ◌||◌, none, some, List, [], ◌∷◌, ◌++◌, if◌then◌else◌,
  ◌==◌, contains, split, trim_space, Cmd, pure, lift, GoResult, ok, err, wrap, attempt, Returned,
  value, error, ◌>>=◌, ◌>>◌,
}
use cni_genie.Npc.World.{
  World, Error, ipt, api, at, plain, list_base, unmarshal_annotation, get_policy,
  annotation_of_policy, add_policy_chain_site, reset_policy_chain, delete_policy_chain,
}
use cni_genie.Npc.Chains.{
  genie_base_npc_chain, filter_table, genie_policy_prefix, genie_network_prefix, jump,
  create_iptable_chain_name, exists_chain, add_policy_chain, insert_rule, delete_network_chain_rule,
  delete_iptable_chain,
}
use cni_genie.Npc.Policies.{
  genie_network_policy, Networks, annotation, get_logical_networks_from_annotation,
}
use cni_genie.Npc.NetworkHandlers.{peer_rule_of, handle_logical_network_add}

-- the word of a rule that holds the network prefix, the last one
unfoldable pub network_word : Text → List Text → Text
network_word found [] = found
network_word found (p ∷ ps) = network_word (if contains p genie_network_prefix then p else found) ps

unfoldable pub seen : Text → List Text → Bool
seen t [] = false
seen t (u ∷ us) = u == t || seen t us

-- a nil map comes with an error
unfoldable pub networks_result : Option Networks → GoResult Error Networks
networks_result (some m) = ok m
networks_result none = err (plain unmarshal_annotation)

module _ (w : World) where
  open w use {State, list, get_logical_network, get_network_policy, range}

  abbrev pub M : Type 0 → Type 0
  M A = Cmd State Error A

  unfoldable pub annotation_result : Text → M Networks
  annotation_result text = lift (networks_result (get_logical_networks_from_annotation w text))

  -- the loop over the peers of `populatePolicyChain`
  unfoldable pub populate_peers : Text → Text → List Text → M (Unit {0})
  populate_peers namespace chain [] = pure tt
  populate_peers namespace chain (p ∷ ps) = do
    found ← attempt (wrap api (get_logical_network namespace (trim_space p)))
    peer_rule_of w chain found
    populate_peers namespace chain ps

  -- the network's chain is built, or the policy's jump is put on top of it
  unfoldable pub link_policy : Text → Text → Text → Text → Bool → M (Unit {0})
  link_policy selector namespace ln_chain chain false =
      handle_logical_network_add w selector namespace
  link_policy selector namespace ln_chain chain true = insert_rule w ln_chain 1 (jump chain)

  -- `continue` after an error
  unfoldable pub peers_after : Text → Text → List Text → Returned Error (Unit {0}) → M (Unit {0})
  peers_after namespace chain peers (error _) = pure tt
  peers_after namespace chain peers (value _) = populate_peers namespace chain peers

  -- one round of the loop of `populatePolicyChain`
  unfoldable pub populate_network : Text → Text → Text → List Text → M (Unit {0})
  populate_network namespace chain nw_selector peers =
      let selector = trim_space nw_selector in
      let ln_chain = create_iptable_chain_name w genie_network_prefix (selector ++ namespace) in
      if selector == [] then pure tt else do
        there ← exists_chain w ln_chain
        linked ← attempt {F = Error} (link_policy selector namespace ln_chain chain there)
        peers_after namespace chain peers linked

  unfoldable pub populate_policy_chain : Text → Text → Networks → M (Unit {0})
  populate_policy_chain namespace chain [] = pure tt
  populate_policy_chain namespace chain ((selector, peers) ∷ networks) = do
    populate_network namespace chain selector peers
    populate_policy_chain namespace chain networks

  -- `if len(networks) > 0`
  unfoldable pub populate : Text → Text → Networks → M (Unit {0})
  populate namespace chain [] = pure tt
  populate namespace chain (n ∷ ns) = populate_policy_chain namespace chain (range (n ∷ ns))

  unfoldable pub handle_network_policy_add : Text → Text → M (Unit {0})
  handle_network_policy_add name namespace = do
    policy ← wrap (λ e. at get_policy (api e)) (get_network_policy namespace name)
    networks ←
        wrap (at annotation_of_policy)
          (annotation_result (annotation policy.annotations genie_network_policy))
    chain ← wrap (at add_policy_chain_site) (add_policy_chain w name namespace)
    populate namespace chain networks

  -- the loop of `handleNetworkPolicyUpdate` over the rules of the base chain
  unfoldable pub unlink_policy : Text → List Text → List Text → M (Unit {0})
  unlink_policy chain [] visited = pure tt
  unlink_policy chain (rule ∷ rules) visited =
      let ln_chain = network_word [] (split rule b' ') in
      let skip = unlink_policy chain rules visited in
      let visit = (do
        attempt {F = Error} (delete_network_chain_rule w ln_chain chain)
        unlink_policy chain rules (ln_chain ∷ visited)) in
      if contains rule genie_network_prefix
      then (if seen ln_chain visited then skip else visit)
      else skip

  -- with no networks left the policy is taken out of every network chain
  unfoldable pub repopulate : Text → Text → Networks → M (Unit {0})
  repopulate namespace chain [] = do
    rules ← wrap (λ e. at list_base (ipt e)) (list filter_table genie_base_npc_chain)
    unlink_policy chain rules []
  repopulate namespace chain (n ∷ ns) = populate_policy_chain namespace chain (range (n ∷ ns))

  unfoldable pub handle_network_policy_update : Text → Text → M (Unit {0})
  handle_network_policy_update name namespace = do
    policy ← wrap (λ e. at get_policy (api e)) (get_network_policy namespace name)
    networks ←
        wrap (at annotation_of_policy)
          (annotation_result (annotation policy.annotations genie_network_policy))
    chain ← wrap (at reset_policy_chain) (add_policy_chain w name namespace)
    repopulate namespace chain networks

  -- the loop of `handleNetworkPolicyDelete` over the networks
  unfoldable pub unlink_networks : Text → Text → Networks → M (Unit {0})
  unlink_networks namespace chain [] = pure tt
  unlink_networks namespace chain ((lnw, _) ∷ networks) = do
    let nw_chain = create_iptable_chain_name w genie_network_prefix (trim_space lnw ++ namespace)
    attempt {F = Error} (delete_network_chain_rule w nw_chain chain)
    unlink_networks namespace chain networks

  unfoldable pub handle_network_policy_delete : Text → Text → Text → M (Unit {0})
  handle_network_policy_delete name namespace text = do
    networks ← annotation_result text
    let chain = create_iptable_chain_name w genie_policy_prefix (name ++ namespace)
    unlink_networks namespace chain (range networks)
    wrap (at delete_policy_chain) (delete_iptable_chain w filter_table chain)
