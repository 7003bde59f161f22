-- ===== src/Client/Copies.antt =====
-- The deep copies of logical networks and of their lists (utils/logicalnetwork.deepcopy.go), on a
-- heap of objects and of arrays. A pointer is a place in the heap, and nil is `none`.
pub mod Fresh
use cni_genie.Base.{Text, ℕ, zero, suc, Option, none, some, List, [], ◌∷◌, ◌++◌, length, get_elem?}
use cni_genie.Types.{LogicalNetwork}

-- `LogicalNetworkList`: of its header the resource version is kept; the items are a slice of a
-- whole array
pub record NetworkList : Type 0 where
  pub resource_version : Text
  pub items : Option ℕ

pub record Heap : Type 0 where
  pub networks : List LogicalNetwork
  pub lists : List NetworkList
  pub arrays : List (List LogicalNetwork)

-- a[i] = x, where there is such a place
unfoldable pub set {ℓ} : {A : Type ℓ} → ℕ → A → List A → List A
set i x [] = []
set zero x (y ∷ ys) = x ∷ ys
set (suc i) x (y ∷ ys) = y ∷ set i x ys

-- `LogicalNetwork.DeepCopyInto`: the value is copied
unfoldable pub network_into : LogicalNetwork → LogicalNetwork
network_into n = record {
  name = n.name;
  namespace = n.namespace;
  resource_version = n.resource_version;
  physical_net = n.physical_net;
  sub_subnet = n.sub_subnet;
  plugin = n.plugin;
}

-- `LogicalNetwork.DeepCopy`
unfoldable pub network_copy : Option ℕ → Heap → Option ℕ × Heap
network_copy none h = (none, h)
network_copy (some p) h = elim (get_elem? h.networks p) [
  | none ↦ (none, h)
  | some n ↦ (some (length h.networks), record h { networks = h.networks ++ network_into n ∷ [] })
]

-- the loop over the items
unfoldable pub copy_items : List LogicalNetwork → List LogicalNetwork
copy_items [] = []
copy_items (n ∷ ns) = network_into n ∷ copy_items ns

-- `LogicalNetworkList.DeepCopyInto`: the value is copied, and then the array
unfoldable pub list_into : NetworkList → ℕ → Heap → Heap
list_into l out h = elim l.items [
  | none ↦ record h { lists = set out l h.lists }
  | some a ↦ elim (get_elem? h.arrays a) [
    | none ↦ record h { lists = set out l h.lists }
    | some ns ↦ record h {
      lists = set out (record l { items = some (length h.arrays) }) h.lists;
      arrays = h.arrays ++ copy_items ns ∷ [];
    }
  ]
]

abbrev pub zero_list : NetworkList
zero_list = record { resource_version = []; items = none }

-- `LogicalNetworkList.DeepCopy`: `new`, and the copy into it
unfoldable pub list_copy : Option ℕ → Heap → Option ℕ × Heap
list_copy none h = (none, h)
list_copy (some p) h = elim (get_elem? h.lists p) [
  | none ↦ (none, h)
  | some l ↦
      let out = length h.lists in
      (some out, list_into l out (record h { lists = h.lists ++ zero_list ∷ [] }))
]
