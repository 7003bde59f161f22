-- ===== src/Npc/Events/Delivery.antt =====
-- From an informer's event through the queue's key to the handler.
use cni_genie.Base.{
  Text, codes, ◌≡◌, ◌≢◌, refl, ap, some, [], ◌∷◌, map, GoMap, lookup, ◌==◌, eq_iff, eq_false_of_ne,
  arith,
}
use cni_genie.Types.{LogicalNetwork, PolicyObject}
use cni_genie.Npc.World.{World}
use cni_genie.Npc.Policies.{genie_network_policy, annotation}
use cni_genie.Npc.NetworkHandlers.{
  handle_logical_network_add, handle_logical_network_update, handle_logical_network_delete,
}
use cni_genie.Npc.PolicyHandlers.{
  handle_network_policy_add, handle_network_policy_update, handle_network_policy_delete,
}
use cni_genie.Npc.Sync.{
  KeyAction, key_action, sync_policy, sync_network, dispatch, sync_unmarshalled, sync_handler,
}
use cni_genie.Npc.Events.{
  object, tombstone, key_fields, enqueue_logical_network, enqueue_network_policy,
  add_logical_network, update_logical_network, delete_logical_network, add_policy, update_policy,
  delete_policy,
}

-- The map encodes, and the code decodes to a map with the same entries.
pub record Encodes (w : World) (m : GoMap Text) : Type 0 where
  pub text : Text
  pub decoded : GoMap Text
  pub marshalled : w.marshal_map m ≡ some text
  pub unmarshalled : w.unmarshal_map text ≡ some decoded
  pub same : (k : Text) → lookup k decoded ≡ lookup k m

abbrev action_of : Text → Text → Text → Text → Text → KeyAction
action_of kind name namespace action args = record {
  kind = kind;
  name = name;
  namespace = namespace;
  action = action;
  args = args;
}

key_action-key_fields :
    (kind name namespace action args : Text)
    → key_action (key_fields kind name namespace action args)
      ≡ action_of kind name namespace action args
unfolding key_action lookup ◌==◌
key_action-key_fields kind name namespace action args = refl

key_action-same :
    (m n : GoMap Text) → ((k : Text) → lookup k m ≡ lookup k n) → key_action m ≡ key_action n
unfolding key_action
key_action-same m n h = cc (
  h (codes "kind"),
  h (codes "name"),
  h (codes "namespace"),
  h (codes "action"),
  h (codes "args"),
)

module _ (w : World) where
  sync-encoded :
      (kind name namespace action args : Text)
      → (e : Encodes w (key_fields kind name namespace action args))
      → sync_handler w e.text ≡ dispatch w (action_of kind name namespace action args)
  unfolding sync_handler sync_unmarshalled
  sync-encoded kind name namespace action args e = rw (
    e.unmarshalled,
    key_action-same _ _ e.same,
    key_action-key_fields kind name namespace action args,
  )

  module _ (ln : LogicalNetwork) where
    abbrev pub NetworkEncodes : Text → Text → Type 0
    NetworkEncodes action args =
        Encodes w (key_fields (codes "logicalnetwork") ln.name ln.namespace action args)

    sync-network :
        (action args : Text)
        → NetworkEncodes action args
        → map (sync_handler w) (enqueue_logical_network w ln action args)
          ≡ sync_network w (action_of (codes "logicalnetwork") ln.name ln.namespace action args)
            ∷ []
    unfolding enqueue_logical_network dispatch ◌==◌
    sync-network action args e =
        rw (e.marshalled) (ap (λ m. m ∷ []) (sync-encoded _ _ _ action args e))

    -- A network that is added, changed in its subnet or deleted, also behind a tombstone, reaches
    -- the handler of that action, once, with its name and namespace, and a deletion with its subnet:
    -- if the keys of these actions survive encoding and decoding.
    pub network_events :
        (old : LogicalNetwork)
        → NetworkEncodes (codes "ADD") []
        → NetworkEncodes (codes "UPDATE") []
        → NetworkEncodes (codes "DELETE") ln.sub_subnet
        → old.resource_version ≢ ln.resource_version
        → old.sub_subnet ≢ ln.sub_subnet
        → (map (sync_handler w) (add_logical_network w ln)
            ≡ handle_logical_network_add w ln.name ln.namespace ∷ [])
          × (map (sync_handler w) (update_logical_network w old ln)
              ≡ handle_logical_network_update w ln.name ln.namespace ∷ [])
          × (map (sync_handler w) (delete_logical_network w (object ln))
              ≡ handle_logical_network_delete w ln.name ln.namespace ln.sub_subnet ∷ [])
          × (map (sync_handler w) (delete_logical_network w (tombstone (some ln)))
              ≡ handle_logical_network_delete w ln.name ln.namespace ln.sub_subnet ∷ [])
    unfolding add_logical_network update_logical_network delete_logical_network sync_network ◌==◌
    network_events old a u d v s = (
      sync-network (codes "ADD") [] a,
      rw (eq_false_of_ne _ _ v, eq_false_of_ne _ _ s) (sync-network (codes "UPDATE") [] u),
      sync-network (codes "DELETE") _ d,
      sync-network (codes "DELETE") _ d,
    )

  module _ (np : PolicyObject) where
    abbrev pub PolicyEncodes : Text → Text → Type 0
    PolicyEncodes action args =
        Encodes w (key_fields (codes "networkpolicy") np.name np.namespace action args)

    sync-policy :
        (action args : Text)
        → PolicyEncodes action args
        → map (sync_handler w) (enqueue_network_policy w np action args)
          ≡ sync_policy w (action_of (codes "networkpolicy") np.name np.namespace action args) ∷ []
    unfolding enqueue_network_policy dispatch ◌==◌
    sync-policy action args e =
        rw (e.marshalled) (ap (λ m. m ∷ []) (sync-encoded _ _ _ action args e))

    -- the key of an added policy is handled once
    pub add_policy-handled :
        PolicyEncodes (codes "ADD") []
        → map (sync_handler w) (add_policy w np)
          ≡ handle_network_policy_add w np.name np.namespace ∷ []
    unfolding add_policy sync_policy ◌==◌
    add_policy-handled e = sync-policy (codes "ADD") [] e

    changed_annotation :
        (old : PolicyObject) (args : Text)
        → annotation old.annotations genie_network_policy ≡ args
        → old.resource_version ≢ np.resource_version
        → args ≢ annotation np.annotations genie_network_policy
        → update_policy w old np ≡ enqueue_network_policy w np (codes "UPDATE") args
    unfolding update_policy
    changed_annotation old args e v h =
        let old_text = annotation old.annotations genie_network_policy in
        let new_text = annotation np.annotations genie_network_policy in
        rw (eq_false_of_ne _ _ v) (ground (arith, eq_iff old_text new_text))

    deleted_annotation :
        (args : Text)
        → annotation np.annotations genie_network_policy ≡ args
        → delete_policy w (object np) ≡ enqueue_network_policy w np (codes "DELETE") args
    unfolding delete_policy
    deleted_annotation args e =
        ground (arith, eq_iff (annotation np.annotations genie_network_policy) [])

    -- A policy that is added, changed in its annotation or deleted, also behind a tombstone, reaches
    -- the handler of that action, once, with its name and namespace, and a deletion with its
    -- annotation: if the keys of these actions survive encoding and decoding.
    pub policy_events :
        (old : PolicyObject)
        → PolicyEncodes (codes "ADD") []
        → PolicyEncodes (codes "UPDATE") (annotation old.annotations genie_network_policy)
        → PolicyEncodes (codes "DELETE") (annotation np.annotations genie_network_policy)
        → old.resource_version ≢ np.resource_version
        → annotation old.annotations genie_network_policy
          ≢ annotation np.annotations genie_network_policy
        → (map (sync_handler w) (add_policy w np)
            ≡ handle_network_policy_add w np.name np.namespace ∷ [])
          × (map (sync_handler w) (update_policy w old np)
              ≡ handle_network_policy_update w np.name np.namespace ∷ [])
          × (map (sync_handler w) (delete_policy w (object np))
              ≡ handle_network_policy_delete w np.name np.namespace
                  (annotation np.annotations genie_network_policy)
                ∷ [])
          × (map (sync_handler w) (delete_policy w (tombstone (some np)))
              ≡ handle_network_policy_delete w np.name np.namespace
                  (annotation np.annotations genie_network_policy)
                ∷ [])
    unfolding sync_policy ◌==◌
    policy_events old a u d v h = (
      add_policy-handled a,
      rw (changed_annotation old _ refl v h) (sync-policy (codes "UPDATE") _ u),
      rw (deleted_annotation _ refl) (sync-policy (codes "DELETE") _ d),
      unfold delete_policy in rw (deleted_annotation _ refl) (sync-policy (codes "DELETE") _ d),
    )
