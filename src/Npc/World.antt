-- ===== src/Npc/World.antt =====
-- What the controller calls and does not implement: iptables (github.com/coreos/go-iptables), the
-- listers over the informers' caches, encoding/json and crypto/md5. Every call may read and change
-- the state of the world and may fail, so that a lister can answer differently a moment later.
use cni_genie.Base.{Text, Cmd, Bool, Option, List, GoMap, ℕ}
use cni_genie.Types.{LogicalNetwork, PolicyObject}

-- An `*iptables.Error` with its exit status, or an error of another type.
pub data IptablesError : Type 0 where
  exit : ℕ → IptablesError
  other : IptablesError

-- An error of a lister.
pub data ApiError : Type 0 where
  not_found : ApiError
  unavailable : ApiError

-- One entry of the annotation's JSON array (`NetworkPolicy` of networkpolicycontroller.go).
pub record NetworkPolicy : Type 0 where
  pub network_selector : Text
  pub peer_networks : Text

pub record World : Type 1 where
  pub State : Type 0
  -- iptables.New, and the methods of *iptables.IPTables: a table, a chain, arguments
  pub new : Cmd State IptablesError (Unit {0})
  pub list : Text → Text → Cmd State IptablesError (List Text)
  pub exists : Text → Text → List Text → Cmd State IptablesError Bool
  pub insert : Text → Text → ℕ → List Text → Cmd State IptablesError (Unit {0})
  pub append_unique : Text → Text → List Text → Cmd State IptablesError (Unit {0})
  pub delete : Text → Text → List Text → Cmd State IptablesError (Unit {0})
  pub clear_chain : Text → Text → Cmd State IptablesError (Unit {0})
  pub delete_chain : Text → Text → Cmd State IptablesError (Unit {0})
  -- the listers: a namespace, a name
  pub get_logical_network : Text → Text → Cmd State ApiError LogicalNetwork
  pub get_network_policy : Text → Text → Cmd State ApiError PolicyObject
  pub list_policies : Text → Cmd State ApiError (List PolicyObject)
  -- md5.Sum: sixteen bytes
  pub md5 : Text → List ℕ
  -- json.Unmarshal and json.Marshal at the types in use; `none` is an error
  pub unmarshal_policies : Text → Option (List NetworkPolicy)
  pub unmarshal_map : Text → Option (GoMap Text)
  pub marshal_map : GoMap Text → Option Text
  -- the order in which `range` visits a map
  pub range : GoMap (List Text) → GoMap (List Text)

-- Where an error message is made.
pub data Site : Type 0 where
  iptables_init base_exists base_insert : Site
  list_base delete_from_base list_network_chain delete_network_chain_site : Site
  flush_before_delete delete_chain_site : Site
  unmarshal_annotation get_policy annotation_of_policy add_policy_chain_site reset_policy_chain :
      Site
  delete_policy_chain get_network add_policy_rule peer_rule_src peer_rule_dst : Site
  delete_base_rule insert_base_rule delete_network_site unmarshal_key : Site
  create_base cache_sync : Site

-- The errors of the controller's functions; the texts of the messages are not kept.
pub data Error : Type 0 where
  ipt : IptablesError → Error
  api : ApiError → Error
  at : Site → Error → Error
  plain : Site → Error
