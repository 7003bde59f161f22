-- ===== src/Genie/Conf.antt =====
-- Configuration files and the calls of a plugin (genie/genie-controller.go, plugins/*.go).
use cni_genie.Base.{
  Text, codes, Bool, true, false, not, ◌&&◌, Option, none, some, List, [], ◌∷◌, ◌++◌, if◌then◌else◌,
  ◌==◌, contains, has_suffix, sort_strings, Cmd, pure, raise, lift, wrap, attempt, Returned, value,
  error, ◌>>=◌, ◌>>◌,
}
use cni_genie.Types.{CniArgs}
use cni_genie.Genie.Host.{
  Host, Error, call, at, plain, load_conf_list, load_conf, no_type, conf_to_list, no_networks,
  check_binary, unsupported_plugin, marshal_conf, write_conf, runtime_conf_site, no_conf_files,
}
use cni_genie.Genie.Args.{or_error, runtime_conf}

abbrev pub default_net_dir : Text
default_net_dir = codes "/etc/cni/net.d"

abbrev pub default_plugin_dir : Text
default_plugin_dir = codes "/opt/cni/bin"

abbrev pub bridge_net : Text
bridge_net = codes "bridge"

abbrev pub macvlan : Text
macvlan = codes "macvlan"

abbrev pub sriov_net : Text
sriov_net = codes "sriov"

abbrev default_master_for_macvlan : Text
default_master_for_macvlan = codes "eth0"

-- A default configuration as its JSON paths and values.
abbrev Fields : Type 0
Fields = List (Text × Text)

unfoldable pub get_bridge_config : Fields
get_bridge_config =
    (codes "name", codes "mybridgenet")
    ∷ (codes "type", bridge_net)
    ∷ (codes "ipam.type", codes "host-local")
    ∷ (codes "ipam.subnet", codes "10.10.0.1/16")
    ∷ []

-- `GetMacvlanConfig` with the interface found by `GetDefaultNic`, if any
unfoldable pub macvlan_config : Text → Fields
macvlan_config master =
    (codes "name", codes "macvlannet")
    ∷ (codes "type", macvlan)
    ∷ (codes "master", master)
    ∷ (codes "ipam.type", codes "host-local")
    ∷ (codes "ipam.subnet", codes "10.10.0.0/16")
    ∷ []

unfoldable pub get_sriov_config : Fields
get_sriov_config =
    (codes "name", codes "sriovnet")
    ∷ (codes "type", sriov_net)
    ∷ (codes "master", codes "eth0")
    ∷ (codes "ipam.type", codes "fixipam")
    ∷ (codes "ipam.subnet", codes "10.55.206.0/26")
    ∷ (codes "ipam.routes.0.dst", codes "0.0.0.0/0")
    ∷ (codes "ipam.gateway", codes "10.55.206.1")
    ∷ []

-- strings.TrimRight(t, "\n")
unfoldable pub trim_newlines : Text → Text
trim_newlines [] = []
trim_newlines (c ∷ t) = elim (trim_newlines t) [
  | [] ↦ if (c ∷ []) == (10 ∷ []) then [] else c ∷ []
  | d ∷ u ↦ c ∷ d ∷ u
]

unfoldable pub any_contains : List Text → Text → Bool
any_contains [] t = false
any_contains (u ∷ us) t = if contains u t then true else any_contains us t

abbrev master_of : Returned Error Text → Text
master_of (error _) = default_master_for_macvlan
master_of (value nic) = if nic == [] then default_master_for_macvlan else nic

module _ (h : Host) where
  open h use {
    State, ConfigList, Config, CniResult, conf_files, read_dir, write_file, conf_list_from_file,
    conf_from_file, conf_from_bytes, conf_list_from_conf, network_type, plugin_types,
    add_network_list, del_network_list, route_output, marshal_fields,
  }

  abbrev pub M : Type 0 → Type 0
  M A = Cmd State Error A

  unfoldable pub get_default_nic : M Text
  get_default_nic = do output ← wrap call route_output; pure (trim_newlines output)

  unfoldable pub get_macvlan_config : M Fields
  get_macvlan_config = do
    nic ← attempt {F = Error} get_default_nic
    pure (macvlan_config (master_of nic))

  -- a configuration from a .conf file must name a type
  unfoldable pub typed_list : Config → Bool → M ConfigList
  typed_list conf true = raise (plain no_type)
  typed_list conf false = wrap (λ e. at conf_to_list (call e)) (lift (conf_list_from_conf conf))

  unfoldable pub conf_as_list : Text → M ConfigList
  conf_as_list filename = do
    conf ← wrap (λ e. at load_conf (call e)) (conf_from_file filename)
    typed_list conf (network_type conf == [])

  unfoldable pub has_plugins : ConfigList → List Text → M ConfigList
  has_plugins conf_list [] = raise (plain no_networks)
  has_plugins conf_list (t ∷ ts) = pure conf_list

  unfoldable pub parse_cni_conf_from_file : Text → M ConfigList
  parse_cni_conf_from_file filename = do
    conf_list ←
        (if has_suffix filename (codes ".conflist")
          then wrap (λ e. at load_conf_list (call e)) (conf_list_from_file filename)
          else conf_as_list filename)
    has_plugins conf_list (plugin_types conf_list)

  unfoldable pub check_plugin_binary : Text → M (Unit {0})
  check_plugin_binary cni_name = do
    binaries ← wrap (λ e. at check_binary (call e)) (read_dir default_plugin_dir)
    if any_contains binaries cni_name then pure tt else raise (plain unsupported_plugin)

  unfoldable pub conf_path : Text → Text
  conf_path cni_name = default_net_dir ++ codes "/10-" ++ cni_name ++ codes ".conf"

  unfoldable pub place_conf_file : Fields → Text → M (Text × Text)
  place_conf_file fields cni_name = do
    bytes ← lift (or_error (plain marshal_conf) (marshal_fields fields))
    wrap (λ e. at write_conf (call e)) (write_file (conf_path cni_name) bytes)
    pure (conf_path cni_name, bytes)

  -- the switch over the plugins with a default configuration
  unfoldable pub default_config : Text → M Fields
  default_config cni_name =
      if cni_name == bridge_net
      then pure get_bridge_config
      else if cni_name == macvlan
      then get_macvlan_config
      else if cni_name == sriov_net
      then pure get_sriov_config
      else raise (plain unsupported_plugin)

  unfoldable pub create_conf_if_binary_exists : Text → M ConfigList
  create_conf_if_binary_exists cni_name = do
    check_plugin_binary cni_name
    fields ← default_config cni_name
    (file, bytes) ← place_conf_file fields cni_name
    conf ← wrap call (lift (conf_from_bytes bytes))
    wrap call (lift (conf_list_from_conf conf))

  -- does a configuration file belong to the plugin
  abbrev pub serves : Text → Text → Bool
  serves file cni_name = contains file cni_name && not (cni_name == [])

  -- the first file of the plugin with a valid configuration
  unfoldable pub find_conf : Text → List Text → M (Option ConfigList)
  find_conf cni_name [] = pure none
  find_conf cni_name (file ∷ files) =
      let rest = find_conf cni_name files in
      if serves file cni_name
      then (do
        parsed ← attempt {F = Error} (parse_cni_conf_from_file file)
        elim parsed [ value l ↦ pure (some l) | error _ ↦ rest ])
      else rest

  unfoldable pub conf_or_default : Text → Option ConfigList → M ConfigList
  conf_or_default cni_name (some l) = pure l
  conf_or_default cni_name none = create_conf_if_binary_exists cni_name

  unfoldable pub add_network : Text → Text → CniArgs → M CniResult
  add_network intf_name cni_name cni = do
    files ← wrap call (conf_files default_net_dir (codes ".conf" ∷ codes ".conflist" ∷ []))
    found ← find_conf cni_name (sort_strings files)
    conf ← conf_or_default cni_name found
    rt ← wrap (at runtime_conf_site) (runtime_conf h cni intf_name)
    wrap call (add_network_list conf rt)

  -- the network is released through the first valid configuration, if there is one
  unfoldable pub release : Text → CniArgs → Option ConfigList → M (Unit {0})
  release intf_name cni none = pure tt
  release intf_name cni (some conf) = do
    rt ← wrap (at runtime_conf_site) (runtime_conf h cni intf_name)
    wrap call (del_network_list conf rt)

  unfoldable pub release_from : Text → Text → CniArgs → List Text → M (Unit {0})
  release_from intf_name cni_name cni [] = raise (plain no_conf_files)
  release_from intf_name cni_name cni (f ∷ fs) = do
    found ← find_conf cni_name (sort_strings (f ∷ fs))
    release intf_name cni found

  unfoldable pub delete_network : Text → Text → CniArgs → M (Unit {0})
  delete_network intf_name cni_name cni = do
    files ← wrap call (conf_files default_net_dir (codes ".conf" ∷ []))
    release_from intf_name cni_name cni files
