-- ===== src/Genie/Host.antt =====
-- What the plugin calls and does not implement: libcni and the CNI types, the Kubernetes client,
-- encoding/json, the file system, net/http and the shell. Every call may read and change the state of
-- the host and may fail.
use cni_genie.Base.{Text, Cmd, GoResult, Option, List, GoMap, ℕ}
use cni_genie.Types.{
  LogicalNetwork, PhysicalNetwork, NetConf, K8sArgs, MultiIpPreferences, ContainerInfoGenie,
}

-- An error of a call of a library.
pub data CallError : Type 0 where
  failed : ℕ → CallError

pub record Pod : Type 0 where
  pub name : Text
  pub annotations : GoMap Text

-- libcni.RuntimeConf
pub record RuntimeConf : Type 0 where
  pub container_id : Text
  pub net_ns : Text
  pub if_name : Text
  pub args : List (Text × Text)

-- clientcmd.ConfigOverrides
pub record ConfigOverrides : Type 0 where
  pub server : Text
  pub client_certificate : Text
  pub client_key : Text
  pub certificate_authority : Text
  pub token : Text

-- an HTTP response: its status, and its body unless reading it failed
pub record Response : Type 0 where
  pub status_code : ℕ
  pub body : Option Text

pub record Host : Type 1 where
  pub State : Type 0
  -- types of the libraries
  pub Client : Type 0
  pub Config : Type 0
  pub ConfigList : Type 0
  pub CniResult : Type 0
  -- types.LoadArgs, json.Unmarshal and json.Marshal at the types in use; `none` is an error
  pub load_args : Text → Option K8sArgs
  pub unmarshal_net_conf : Text → Option NetConf
  pub unmarshal_logical_network : Text → Option LogicalNetwork
  pub unmarshal_physical_network : Text → Option PhysicalNetwork
  -- an error of this call is dropped by the caller: what is decoded up to it
  pub unmarshal_preferences : Text → MultiIpPreferences
  pub marshal_preferences : MultiIpPreferences → Option Text
  pub unmarshal_container_info : Text → Option ContainerInfoGenie
  -- strconv.Quote
  pub quote : Text → Text
  -- the Kubernetes client: a namespace, a name
  pub new_client : Text → ConfigOverrides → Cmd State CallError Client
  pub get_pod : Client → Text → Text → Cmd State CallError Pod
  pub patch_pod : Client → Text → Text → Text → Cmd State CallError Pod
  pub get_raw : Client → Text → Cmd State CallError Text
  -- libcni.ConfFiles: a directory, extensions; ioutil.ReadDir: file names; ioutil.WriteFile
  pub conf_files : Text → List Text → Cmd State CallError (List Text)
  pub read_dir : Text → Cmd State CallError (List Text)
  pub write_file : Text → Text → Cmd State CallError (Unit {0})
  -- libcni's configurations; `plugin_types` are the types of a list's plugins
  pub conf_list_from_file : Text → Cmd State CallError ConfigList
  pub conf_from_file : Text → Cmd State CallError Config
  pub conf_from_bytes : Text → GoResult CallError Config
  pub conf_list_from_conf : Config → GoResult CallError ConfigList
  pub network_type : Config → Text
  pub plugin_types : ConfigList → List Text
  -- libcni.CNIConfig with the default plugin directory
  pub add_network_list : ConfigList → RuntimeConf → Cmd State CallError CniResult
  pub del_network_list : ConfigList → RuntimeConf → Cmd State CallError (Unit {0})
  -- current.NewResultFromResult and the addresses of the result; a nil result panics inside it
  pub current_ips : CniResult → GoResult CallError (List Text)
  -- types.PrintResult
  pub print_result : CniResult → Text → Cmd State CallError (Unit {0})
  -- http.DefaultClient: an address, a body; `none` is a nil response
  pub http_get : Text → Cmd State CallError (Option Response)
  pub http_post : Text → Text → Cmd State CallError (Option Response)
  -- the default route's interface, by a shell command
  pub route_output : Cmd State CallError Text
  -- json.MarshalIndent of a default configuration: its name, type, master and IPAM fields
  pub marshal_fields : List (Text × Text) → Option Text
  -- the keys of a map in the order in which `range` visits them
  pub range_keys : GoMap ℕ → List Text

-- Where an error message is made.
pub data Site : Type 0 where
  at_load_args at_kube_client at_pod_annotations at_add_network at_delete_network : Site
  convert_result update_pod cadvisor_list get_pod_site nw_annotation : Site
  load_conf_list load_conf no_type conf_to_list no_networks : Site
  check_binary unsupported_plugin marshal_conf write_conf runtime_conf_site : Site
  no_conf_files physical_network physical_network_json logical_network logical_network_json : Site
  no_physical_net load_net_conf add_ip release_ip : Site
  empty_url http_request empty_response read_body bad_status bad_json : Site

pub data Error : Type 0 where
  call : CallError → Error
  at : Site → Error → Error
  plain : Site → Error
