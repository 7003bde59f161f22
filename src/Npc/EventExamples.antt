-- ===== src/Npc/EventExamples.antt =====
-- From events to handlers at concrete inputs, in the in-memory world.
use cni_genie.Base.{
  codes, ◌≡◌, ◌≢◌, refl, ap, arith, some, [], ◌∷◌, map, get_or, lookup, split, ◌==◌,
}
use cni_genie.Types.{LogicalNetwork, PolicyObject}
use cni_genie.Npc.Policies.{genie_network_policy}
use cni_genie.Npc.NetworkHandlers.{
  handle_logical_network_add, handle_logical_network_update, handle_logical_network_delete,
}
use cni_genie.Npc.PolicyHandlers.{
  handle_network_policy_add, handle_network_policy_update, handle_network_policy_delete,
}
use cni_genie.Npc.Sync.{sync_handler}
use cni_genie.Npc.Events.{
  object, tombstone, add_logical_network, update_logical_network, delete_logical_network,
  add_policy, update_policy, delete_policy, key_fields,
}
use cni_genie.Npc.Events.Delivery.{Encodes, network_events, policy_events}
use cni_genie.Npc.Kernel.{kernel}
use cni_genie.Npc.Tests.{network_at, web_policy}

abbrev front : LogicalNetwork
front = network_at "front" "10.1.0.0/24"

abbrev old_front : LogicalNetwork
old_front = record front { resource_version = codes "0"; sub_subnet = codes "10.3.0.0/24" }

add_front :
    Encodes kernel
      (key_fields (codes "logicalnetwork") (codes "front") (codes "ns") (codes "ADD") [])
unfolding split
add_front = record {
  text = codes "logicalnetwork|front|ns|ADD||";
  decoded = _;
  marshalled = refl;
  unmarshalled = refl;
  same = λ k. refl;
}

update_front :
    Encodes kernel
      (key_fields (codes "logicalnetwork") (codes "front") (codes "ns") (codes "UPDATE") [])
unfolding split
update_front = record {
  text = codes "logicalnetwork|front|ns|UPDATE||";
  decoded = _;
  marshalled = refl;
  unmarshalled = refl;
  same = λ k. refl;
}

delete_front : Encodes kernel (
    key_fields
      (codes "logicalnetwork")
      (codes "front")
      (codes "ns")
      (codes "DELETE")
      (codes "10.1.0.0/24"))
unfolding split
delete_front = record {
  text = codes "logicalnetwork|front|ns|DELETE|10.1.0.0/24|";
  decoded = _;
  marshalled = refl;
  unmarshalled = refl;
  same = λ k. refl;
}

version_changed : codes "0" ≢ codes "1"
version_changed e = absurd (omega (arith, ap (λ t. get_or t 0 0) e))

subnet_changed : codes "10.3.0.0/24" ≢ codes "10.1.0.0/24"
subnet_changed e = absurd (omega (arith, ap (λ t. get_or t 3 0) e))

network_events_example :
    (map (sync_handler kernel) (add_logical_network kernel front)
      ≡ handle_logical_network_add kernel (codes "front") (codes "ns") ∷ [])
    × (map (sync_handler kernel) (update_logical_network kernel old_front front)
        ≡ handle_logical_network_update kernel (codes "front") (codes "ns") ∷ [])
    × (map (sync_handler kernel) (delete_logical_network kernel (object front))
        ≡ handle_logical_network_delete kernel (codes "front") (codes "ns") (codes "10.1.0.0/24")
          ∷ [])
    × (map (sync_handler kernel) (delete_logical_network kernel (tombstone (some front)))
        ≡ handle_logical_network_delete kernel (codes "front") (codes "ns") (codes "10.1.0.0/24")
          ∷ [])
network_events_example =
    network_events kernel front old_front add_front update_front delete_front version_changed
      subnet_changed

abbrev old_web : PolicyObject
old_web = record web_policy {
  resource_version = codes "0";
  annotations = some ((genie_network_policy, codes "back:front") ∷ []);
}

add_web_key :
    Encodes kernel (key_fields (codes "networkpolicy") (codes "web") (codes "ns") (codes "ADD") [])
unfolding split
add_web_key = record {
  text = codes "networkpolicy|web|ns|ADD||";
  decoded = _;
  marshalled = refl;
  unmarshalled = refl;
  same = λ k. refl;
}

update_web_key : Encodes kernel (
    key_fields
      (codes "networkpolicy")
      (codes "web")
      (codes "ns")
      (codes "UPDATE")
      (codes "back:front"))
unfolding split
update_web_key = record {
  text = codes "networkpolicy|web|ns|UPDATE|back:front|";
  decoded = _;
  marshalled = refl;
  unmarshalled = refl;
  same = λ k. refl;
}

delete_web_key : Encodes kernel (
    key_fields
      (codes "networkpolicy")
      (codes "web")
      (codes "ns")
      (codes "DELETE")
      (codes "front:back"))
unfolding split
delete_web_key = record {
  text = codes "networkpolicy|web|ns|DELETE|front:back|";
  decoded = _;
  marshalled = refl;
  unmarshalled = refl;
  same = λ k. refl;
}

annotation_changed : codes "back:front" ≢ codes "front:back"
annotation_changed e = absurd (omega (arith, ap (λ t. get_or t 0 0) e))

policy_events_example :
    (map (sync_handler kernel) (add_policy kernel web_policy)
      ≡ handle_network_policy_add kernel (codes "web") (codes "ns") ∷ [])
    × (map (sync_handler kernel) (update_policy kernel old_web web_policy)
        ≡ handle_network_policy_update kernel (codes "web") (codes "ns") ∷ [])
    × (map (sync_handler kernel) (delete_policy kernel (object web_policy))
        ≡ handle_network_policy_delete kernel (codes "web") (codes "ns") (codes "front:back") ∷ [])
    × (map (sync_handler kernel) (delete_policy kernel (tombstone (some web_policy)))
        ≡ handle_network_policy_delete kernel (codes "web") (codes "ns") (codes "front:back") ∷ [])
unfolding lookup ◌==◌
policy_events_example =
    policy_events kernel web_policy old_web add_web_key update_web_key delete_web_key
      version_changed annotation_changed
