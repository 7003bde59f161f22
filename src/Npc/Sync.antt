-- ===== src/Npc/Sync.antt =====
-- The work queue's consumer and the start of the controller
-- (controllers/network-policy-controller/networkpolicycontroller.go). The mutex makes a run of
-- `syncHandler` one step of the world, so that the workers' runs are a sequence of keys.
pub mod Run
pub mod AddedPolicy
use cni_genie.Base.{
  Text, Option, none, some, codes, Bool, none, some, List, [], ◌∷◌, GoMap, lookup, or_empty,
  if◌then◌else◌, ◌==◌, Cmd, pure, raise, wrap, attempt, ◌>>◌,
}
use cni_genie.Npc.World.{World, Error, at, plain, unmarshal_key, create_base, cache_sync}
use cni_genie.Npc.Chains.{create_base_chain}
use cni_genie.Npc.NetworkHandlers.{
  handle_logical_network_add, handle_logical_network_update, handle_logical_network_delete,
}
use cni_genie.Npc.PolicyHandlers.{
  handle_network_policy_add, handle_network_policy_update, handle_network_policy_delete,
}

-- The fields of a queue key.
pub record KeyAction : Type 0 where
  pub kind : Text
  pub name : Text
  pub namespace : Text
  pub action : Text
  pub args : Text

-- A missing field reads as the empty string.
unfoldable pub key_action : GoMap Text → KeyAction
key_action m = record {
  kind = or_empty (lookup (codes "kind") m);
  name = or_empty (lookup (codes "name") m);
  namespace = or_empty (lookup (codes "namespace") m);
  action = or_empty (lookup (codes "action") m);
  args = or_empty (lookup (codes "args") m);
}

module _ (w : World) where
  open w use {State, unmarshal_map}

  abbrev pub M : Type 0 → Type 0
  M A = Cmd State Error A

  unfoldable pub sync_policy : KeyAction → M (Unit {0})
  sync_policy k =
      if k.action == codes "ADD"
      then handle_network_policy_add w k.name k.namespace
      else if k.action == codes "UPDATE"
      then handle_network_policy_update w k.name k.namespace
      else if k.action == codes "DELETE"
      then handle_network_policy_delete w k.name k.namespace k.args
      else pure tt

  unfoldable pub sync_network : KeyAction → M (Unit {0})
  sync_network k =
      if k.action == codes "ADD"
      then handle_logical_network_add w k.name k.namespace
      else if k.action == codes "UPDATE"
      then handle_logical_network_update w k.name k.namespace
      else if k.action == codes "DELETE"
      then handle_logical_network_delete w k.name k.namespace k.args
      else pure tt

  unfoldable pub dispatch : KeyAction → M (Unit {0})
  dispatch k =
      if k.kind == codes "networkpolicy"
      then sync_policy k
      else if k.kind == codes "logicalnetwork"
      then sync_network k
      else pure tt

  -- `none` is an error of json.Unmarshal
  unfoldable pub sync_unmarshalled : Option (GoMap Text) → M (Unit {0})
  sync_unmarshalled none = raise (plain unmarshal_key)
  sync_unmarshalled (some m) = dispatch (key_action m)

  unfoldable pub sync_handler : Text → M (Unit {0})
  sync_handler key = sync_unmarshalled (unmarshal_map key)

  -- `worker`: the keys that the queue hands out until it is shut down; an error is only logged
  unfoldable pub worker : List Text → M (Unit {0})
  worker [] = pure tt
  worker (key ∷ keys) = do attempt {F = Error} (sync_handler key); worker keys

  -- `Run`, with the answer of WaitForCacheSync
  unfoldable pub run : Bool → List Text → M (Unit {0})
  run synced keys = do
    wrap (at create_base) (create_base_chain w)
    if synced then worker keys else raise (plain cache_sync)
