-- ===== src/Types.antt =====
-- utils/types.go: the objects that the plugin and the controller exchange. Of the Kubernetes object
-- headers (TypeMeta, ObjectMeta) only the fields that the program reads are kept.
use cni_genie.Base.{Text, GoMap, Option, List, Bool, ℕ}

pub record LogicalNetwork : Type 0 where
  pub name : Text
  pub namespace : Text
  pub resource_version : Text
  pub physical_net : Text
  pub sub_subnet : Text
  pub plugin : Text

-- networkv1.NetworkPolicy, a library type: what the controller reads of it. A nil map is `none`.
pub record PolicyObject : Type 0 where
  pub name : Text
  pub namespace : Text
  pub resource_version : Text
  pub annotations : Option (GoMap Text)

-- What the plugin reads of a physical network.
pub record PhysicalNetwork : Type 0 where
  pub refer_nic : Text
  pub plugin : Text
  pub subnet : Text
  pub dedicated_status : Bool

pub record PluginInfo : Type 0 where
  pub plugin_name : Text
  pub if_name : Text
  pub subnet : Text
  pub refer_nic : Text

-- a replica of skel.CmdArgs
pub record CniArgs : Type 0 where
  pub container_id : Text
  pub netns : Text
  pub if_name : Text
  pub args : Text
  pub path : Text
  pub stdin_data : Text

pub record PolicyConfig : Type 0 where
  pub k8s_api_root : Text
  pub k8s_auth_token : Text
  pub k8s_client_certificate : Text
  pub k8s_client_key : Text
  pub k8s_certificate_authority : Text

pub record KubernetesConfig : Type 0 where
  pub k8s_api_root : Text
  pub kubeconfig : Text

-- the fields of the network configuration that the program reads
pub record NetConf : Type 0 where
  pub cni_version : Text
  pub policy : PolicyConfig
  pub kubernetes : KubernetesConfig
  pub default_plugin : Text

-- the CNI_ARGS of Kubernetes that the program reads
pub record K8sArgs : Type 0 where
  pub ignore_unknown : Bool
  pub k8s_pod_name : Text
  pub k8s_pod_namespace : Text
  pub k8s_pod_infra_container_id : Text

pub record IpAddressPreferences : Type 0 where
  pub ip : Text
  pub interface : Text

-- `multi_entry` is an int64, as its bits; a nil map of addresses is `none`.
pub record MultiIpPreferences : Type 0 where
  pub multi_entry : ℕ
  pub ips : Option (GoMap IpAddressPreferences)

-- one interface's counter in a cAdvisor sample, a uint64
pub record InterfaceStats : Type 0 where
  pub name : Text
  pub rx_bytes : ℕ

-- The interfaces of its NetworkStats.
pub record ContainerStatsGenie : Type 0 where
  pub network : List InterfaceStats

pub record ContainerInfoGenie : Type 0 where
  pub stats : List ContainerStatsGenie
