-- ===== src/Npc/Tests.antt =====
-- Runs of the controller in the in-memory world, and its theorems at concrete inputs.
use cni_genie.Base.{
  Text, codes, ◌≡◌, refl, some, [], ◌∷◌, ◌>>=◌, contains, split, trim_space, itoa, number_from,
  lookup, insert, ◌==◌,
}
use Prim.Native.String.{String}
use cni_genie.Types.{LogicalNetwork, PolicyObject}
use cni_genie.Npc.Chains.{
  create_iptable_chain_name, create_base_chain, base_rule, exists_of, exists_chain,
  add_policy_chain, append_to_base, add_network_chain, delete_two, delete_network_chain, inserted,
  insert_rule, delete_rules, delete_network_chain_rule, delete_iptable_chain, hex, hex_digit, jump,
  to_subnet, from_subnet, forward_chain,
}
use cni_genie.Npc.Policies.{
  collect, count_peer, count_peers, get_logical_networks_from_annotation, policy_info, policy_infos,
  list_network_policies, genie_network_policy,
}
use cni_genie.Npc.NetworkHandlers.{
  insert_peer_rule, peer_rule_of, add_peers, add_policy, add_policies, handle_logical_network_add,
  replace_base_rules, handle_logical_network_update, remove_subnet, forget_policy, forget_policies,
  handle_logical_network_delete, accept,
}
use cni_genie.Npc.PolicyHandlers.{
  network_word, seen, networks_result, annotation_result, populate_peers, link_policy, peers_after,
  populate_network, populate_policy_chain, populate, handle_network_policy_add, unlink_policy,
  repopulate, handle_network_policy_update, unlink_networks, handle_network_policy_delete,
}
use cni_genie.Npc.Sync.{
  key_action, sync_policy, sync_network, dispatch, sync_unmarshalled, sync_handler, worker,
}
use cni_genie.Npc.Chains.Iptables.{has_rule, same_rule}
use cni_genie.Npc.Frame.{IsGenie, base, policy, network, nameless}
use cni_genie.Npc.Frame.Untouched.{worker_untouched}
use cni_genie.Npc.Kernel.{Tables, kernel, kernel_view, kernel-IsLocal}

-- opens the whole controller for a run
unfoldable pub controller : Unit {0}
unfolding create_iptable_chain_name create_base_chain base_rule exists_of exists_chain
    add_policy_chain append_to_base add_network_chain delete_two delete_network_chain inserted
    insert_rule delete_rules delete_network_chain_rule delete_iptable_chain hex hex_digit collect
    count_peer count_peers get_logical_networks_from_annotation policy_info policy_infos
    list_network_policies insert_peer_rule peer_rule_of add_peers add_policy add_policies
    handle_logical_network_add replace_base_rules handle_logical_network_update remove_subnet
    forget_policy forget_policies handle_logical_network_delete network_word seen networks_result
    annotation_result populate_peers link_policy peers_after populate_network populate_policy_chain
    populate handle_network_policy_add unlink_policy repopulate handle_network_policy_update
    unlink_networks handle_network_policy_delete key_action sync_policy sync_network dispatch
    sync_unmarshalled sync_handler worker ◌>>=◌ contains split trim_space itoa number_from lookup
    insert ◌==◌ has_rule same_rule
controller = tt

abbrev pub network_at : String → String → LogicalNetwork
network_at name subnet = record {
  name = codes name;
  namespace = codes "ns";
  resource_version = codes "1";
  physical_net = [];
  sub_subnet = codes subnet;
  plugin = [];
}

abbrev pub web_policy : PolicyObject
web_policy = record {
  name = codes "web";
  namespace = codes "ns";
  resource_version = codes "1";
  annotations = some ((genie_network_policy, codes "front:back") ∷ []);
}

abbrev pub start : Tables
start = record {
  chains = (forward_chain, jump (codes "Genie-NPC-Base") ∷ []) ∷ (codes "Genie-NPC-Base", []) ∷ [];
  networks = network_at "front" "10.1.0.0/24" ∷ network_at "back" "10.2.0.0/24" ∷ [];
  policies = web_policy ∷ [];
}

abbrev pub add_web : Text
add_web = codes "networkpolicy|web|ns|ADD|"

-- The chains after the policy was added: a chain for the policy, one for its network, and two rules
-- of the base chain.
abbrev pub web_chain : Text
web_chain = codes "GnPlc-7765626e733031323334"

abbrev pub front_chain : Text
front_chain = codes "GnNtk-66726f6e746e73303132"

-- Adding a policy makes a chain for it, one for its network, and two rules of the base chain.
add_web_runs :
    (worker kernel (add_web ∷ []) start).1.chains
    ≡ (forward_chain, jump (codes "Genie-NPC-Base") ∷ [])
      ∷ (
        codes "Genie-NPC-Base",
        to_subnet (codes "10.1.0.0/24") front_chain
            ∷ from_subnet (codes "10.1.0.0/24") front_chain
            ∷ [],
      )
      ∷ (
        web_chain,
        from_subnet (codes "10.2.0.0/24") accept ∷ to_subnet (codes "10.2.0.0/24") accept ∷ [],
      )
      ∷ (front_chain, jump web_chain ∷ jump (codes "REJECT") ∷ [])
      ∷ []
unfolding controller
add_web_runs = refl

forward-foreign : ¬ IsGenie forward_chain
unfolding contains
forward-foreign (base e) = cc
forward-foreign (policy e) = cc
forward-foreign (network e) = cc
forward-foreign (nameless e) = cc

worker_untouched_example :
    kernel_view (worker kernel (add_web ∷ []) start).1 (codes "filter") forward_chain
    ≡ kernel_view start (codes "filter") forward_chain
worker_untouched_example =
    worker_untouched kernel kernel_view kernel-IsLocal (codes "filter") forward_chain
      forward-foreign (add_web ∷ []) start
