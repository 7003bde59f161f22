-- ===== src/Npc/Events.antt =====
-- The informers' event handlers, as the keys that they add to the work queue
-- (controllers/network-policy-controller/networkpolicycontroller.go).
pub mod Delivery
use cni_genie.Base.{
  Text, codes, Bool, ◌&&◌, true, false, Option, none, some, List, [], ◌∷◌, GoMap, if◌then◌else◌,
  ◌==◌,
}
use cni_genie.Types.{LogicalNetwork, PolicyObject}
use cni_genie.Npc.World.{World}
use cni_genie.Npc.Policies.{genie_network_policy, annotation}

-- What a delete event carries: the object, a tombstone with or without it, or something else.
pub data Deleted {ℓ} (A : Type ℓ) : Type ℓ where
  object : A → Deleted A
  tombstone : Option A → Deleted A
  unknown : Deleted A

abbrev pub is_some {ℓ} : {A : Type ℓ} → Option A → Bool
is_some none = false
is_some (some _) = true

abbrev pub key_fields : Text → Text → Text → Text → Text → GoMap Text
key_fields kind name namespace action args =
    (codes "kind", kind)
    ∷ (codes "name", name)
    ∷ (codes "namespace", namespace)
    ∷ (codes "action", action)
    ∷ (codes "args", args)
    ∷ []

-- the bytes of a failed json.Marshal are empty, and are added as they are
abbrev key_text : Option Text → Text
key_text none = []
key_text (some t) = t

module _ (w : World) where
  open w use {marshal_map}

  unfoldable pub enqueue_logical_network : LogicalNetwork → Text → Text → List Text
  enqueue_logical_network ln action args =
      key_text (marshal_map (key_fields (codes "logicalnetwork") ln.name ln.namespace action args))
      ∷ []

  unfoldable pub enqueue_network_policy : PolicyObject → Text → Text → List Text
  enqueue_network_policy np action args =
      key_text (marshal_map (key_fields (codes "networkpolicy") np.name np.namespace action args))
      ∷ []

  unfoldable pub add_logical_network : LogicalNetwork → List Text
  add_logical_network ln = enqueue_logical_network ln (codes "ADD") []

  unfoldable pub update_logical_network : LogicalNetwork → LogicalNetwork → List Text
  update_logical_network old_ln new_ln =
      if old_ln.resource_version == new_ln.resource_version
      then []
      else if old_ln.sub_subnet == new_ln.sub_subnet
      then []
      else enqueue_logical_network new_ln (codes "UPDATE") []

  unfoldable pub delete_logical_network : Deleted LogicalNetwork → List Text
  delete_logical_network (object l) = enqueue_logical_network l (codes "DELETE") l.sub_subnet
  delete_logical_network (tombstone (some l)) =
      enqueue_logical_network l (codes "DELETE") l.sub_subnet
  delete_logical_network (tombstone none) = []
  delete_logical_network unknown = []

  unfoldable pub add_policy : PolicyObject → List Text
  add_policy np = enqueue_network_policy np (codes "ADD") []

  -- the annotation of both versions, where both have annotations
  abbrev same_annotation : PolicyObject → PolicyObject → Bool
  same_annotation old_np new_np =
      is_some old_np.annotations
      && is_some new_np.annotations
      && annotation old_np.annotations genie_network_policy
        == annotation new_np.annotations genie_network_policy

  abbrev either_annotated : PolicyObject → PolicyObject → Bool
  either_annotated old_np new_np = elim old_np.annotations [
    | some _ ↦ true
    | none ↦ is_some new_np.annotations
  ]

  unfoldable pub update_policy : PolicyObject → PolicyObject → List Text
  update_policy old_np new_np =
      if old_np.resource_version == new_np.resource_version
      then []
      else if either_annotated old_np new_np
      then (if same_annotation old_np new_np
          then []
          else enqueue_network_policy new_np (codes "UPDATE")
              (annotation old_np.annotations genie_network_policy))
      else enqueue_network_policy new_np (codes "UPDATE") []

  -- both branches of the source pass the annotation, which is empty in the second
  abbrev deleted_policy : PolicyObject → List Text
  deleted_policy np =
      if annotation np.annotations genie_network_policy == []
      then enqueue_network_policy np (codes "DELETE") []
      else enqueue_network_policy np (codes "DELETE")
          (annotation np.annotations genie_network_policy)

  unfoldable pub delete_policy : Deleted PolicyObject → List Text
  delete_policy (object np) = deleted_policy np
  delete_policy (tombstone (some np)) = deleted_policy np
  delete_policy (tombstone none) = []
  delete_policy unknown = []
