-- ===== src/Genie/Tests.antt =====
-- The plugin's theorems at concrete inputs, on the in-memory host.
use cni_genie.Base.{
  arith, Text, ◌%◌, ◌^◌, GoMap, lookup, codes, ℕ, ◌↔◌, ◌+◌, ◌≡◌, refl, false, none, some, List, [],
  ◌∷◌, ok, split, contains, itoa, sort_strings, has_suffix, insert, insert_sorted, is_prefix,
  number_from, split_sep, text_le, ◌==◌, ◌>>=◌,
}
use cni_genie.Types.{PluginInfo, CniArgs, K8sArgs, IpAddressPreferences, MultiIpPreferences}
use cni_genie.Genie.Selection.{named_plugin, get_pod_definition}
use cni_genie.Genie.Pod.{add_networks, delete_networks, added, interface_name}
use cni_genie.Genie.PodNetworks.{AllAdded, add_networks-ok}
use cni_genie.Genie.Released.{AllReleased, delete_networks-done}
use cni_genie.Genie.Args.{or_error, runtime_conf, load_k8s_args}
use cni_genie.Genie.Conf.{
  add_network, find_conf, parse_cni_conf_from_file, conf_as_list, typed_list, has_plugins,
  conf_or_default,
}
use cni_genie.Genie.MultiIp.{
  update_pod_definition, result_ips, add_preference, atoi, itoa_next, or_crash,
}
use cni_genie.Genie.Networks.{
  eth, used, free_index, choose, parse_entry, with_physical, get_plugin_info_from_physical_nw,
  get_logical_network, plugin_info, plugin_infos, get_plugin_info_from_nw_annot,
}
use cni_genie.Genie.Interfaces.{TakenFrom, choose_lem}
use cni_genie.Genie.NamedPlugins.{Named, nw_annot-Named}
use cni_genie.Genie.Bandwidth.{int_less, less, insert_key, sort_keys, sorted_keys}
use cni_genie.Genie.FoundConf.{FromFile, find_conf-FromFile}
use cni_genie.Genie.MultiIp.{second}
use cni_genie.Genie.MultiIp.Keys.{add_preference-eth}
use cni_genie.Genie.Memory.{memory}

abbrev two_names : List Text
two_names = eth 1 ∷ eth 0 ∷ []

choose_lem_example :
    ((choose none 0 two_names).if_name ≡ eth (choose none 0 two_names).index)
    × (used (choose none 0 two_names).if_name two_names ≡ false)
    × ((n : ℕ) × ((choose none 0 two_names).index ≡ 0 + n) × TakenFrom 0 n two_names)
    × ((choose none 0 two_names).taken ≡ (choose none 0 two_names).if_name ∷ two_names)
choose_lem_example = choose_lem 0 two_names

abbrev plugin_at : Text → PluginInfo
plugin_at name = record {
  plugin_name = codes "flannel";
  if_name = name;
  subnet = codes "10.0.0.0/8";
  refer_nic = codes "eno1";
}

abbrev three_networks : Text
three_networks = codes "front,back:net1,db"

abbrev three_plugins : List PluginInfo
three_plugins = plugin_at (codes "eth0") ∷ plugin_at (codes "net1") ∷ plugin_at (codes "eth1") ∷ []

three_networks_run :
    (get_plugin_info_from_nw_annot memory three_networks (codes "ns") tt []).0 ≡ ok three_plugins
unfolding get_plugin_info_from_nw_annot plugin_infos plugin_info get_logical_network
    get_plugin_info_from_physical_nw with_physical parse_entry choose free_index used eth split
    contains itoa or_error ◌==◌ ◌>>=◌
three_networks_run = refl

nw_annot-Named_example : Named (split three_networks b',') three_plugins []
nw_annot-Named_example =
    nw_annot-Named memory three_networks (codes "ns") tt [] three_plugins three_networks_run

abbrev call_args : CniArgs
call_args = record {
  container_id = codes "c1";
  netns = codes "/proc/1/ns/net";
  if_name = codes "eth0";
  args = codes "K8S_POD_NAME=web";
  path = [];
  stdin_data = [];
}

abbrev web_k8s : K8sArgs
web_k8s = record {
  ignore_unknown = false;
  k8s_pod_name = codes "web";
  k8s_pod_namespace = codes "ns";
  k8s_pod_infra_container_id = [];
}

abbrev two_plugins : List PluginInfo
two_plugins = named_plugin (codes "weave") ∷ named_plugin (codes "flannel") ∷ []

delete_networks-done_example :
    delete_networks memory call_args two_plugins 0 none [] ≡ (ok tt, [])
    ↔ AllReleased memory call_args two_plugins 0 [] []
delete_networks-done_example = delete_networks-done memory call_args two_plugins [] []

two_added :
    (add_networks memory call_args tt web_k8s two_plugins 0 (codes "{}") none none []).0
    ≡ ok (some (codes "10.1.0.2"))
unfolding add_networks add_network or_error contains itoa eth ◌==◌ ◌>>=◌ find_conf sort_strings
    parse_cni_conf_from_file has_suffix conf_as_list typed_list has_plugins conf_or_default
    runtime_conf load_k8s_args update_pod_definition result_ips insert insert_sorted is_prefix
    number_from split_sep text_le add_preference atoi itoa_next or_crash added interface_name
    get_pod_definition
two_added = refl

add_networks-ok_example :
    AllAdded memory call_args tt web_k8s two_plugins 0
      (codes "{}")
      none
      []
      (some (codes "10.1.0.2"))
add_networks-ok_example =
    add_networks-ok memory call_args tt web_k8s two_plugins (codes "{}") (some (codes "10.1.0.2"))
      [] two_added

abbrev traffic : GoMap ℕ
traffic = (codes "flan", 350) ∷ (codes "cali", 250) ∷ (codes "weav", 150) ∷ []

traffic_sorted : sorted_keys memory traffic ≡ codes "weav" ∷ codes "cali" ∷ codes "flan" ∷ []
unfolding sorted_keys sort_keys insert_key less int_less lookup ◌==◌
traffic_sorted = refl

abbrev conf_files : List Text
conf_files = codes "/etc/10-flannel.conf" ∷ codes "/etc/20-weave.conf" ∷ []

weave_found :
    (find_conf memory (codes "weave") conf_files []).0 ≡ ok (some (codes "/etc/20-weave.conf"))
unfolding find_conf parse_cni_conf_from_file has_suffix conf_as_list typed_list has_plugins contains
    is_prefix ◌==◌ ◌>>=◌
weave_found = refl

find_conf-FromFile_example : FromFile memory (codes "weave") conf_files (codes "/etc/20-weave.conf")
find_conf-FromFile_example =
    find_conf-FromFile memory (codes "weave") conf_files (codes "/etc/20-weave.conf") [] weave_found

abbrev one_address : GoMap IpAddressPreferences
one_address = (codes "ip1", record { ip = codes "10.1.0.2"; interface = codes "eth0" }) ∷ []

abbrev preferences : MultiIpPreferences
preferences = record { multi_entry = 1; ips = some one_address }

add_preference-eth_example :
    add_preference
      (eth 1)
      (second (split_sep (eth 1) (codes "eth")))
      (codes "10.2.0.7" ∷ [])
      preferences
      (some one_address)
    ≡ some (record {
      multi_entry = (1 + 1) % 2 ^ 64;
      ips =
          some (
            insert (codes "ip2") (record { ip = codes "10.2.0.7"; interface = eth 1 }) one_address);
    })
unfolding itoa
add_preference-eth_example =
    add_preference-eth 1 (codes "10.2.0.7") [] preferences one_address (ground arith)
