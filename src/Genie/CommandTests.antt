-- ===== src/Genie/CommandTests.antt =====
-- The commands at a concrete input: a pod whose annotation names two plugins.
use cni_genie.Base.{
  Text, codes, ◌≡◌, ◌↔◌, refl, none, some, [], ◌∷◌, ok, wrap, ◌>>=◌, lookup, ◌==◌, split,
  trim_space, contains, itoa, sort_strings, has_suffix, insert, insert_sorted, is_prefix,
  number_from, split_sep, text_le,
}
use cni_genie.Types.{CniArgs, NetConf}
use cni_genie.Genie.Host.{Host, Pod}
use cni_genie.Genie.Args.{
  populate_cni_args, runtime_conf, parse_cni_conf, load_k8s_args, get_kube_client, or_error,
}
use cni_genie.Genie.Conf.{
  add_network, find_conf, parse_cni_conf_from_file, conf_as_list, typed_list, has_plugins,
  conf_or_default,
}
use cni_genie.Genie.MultiIp.{
  update_pod_definition, result_ips, add_preference, atoi, itoa_next, or_crash,
}
use cni_genie.Genie.Networks.{eth}
use cni_genie.Genie.Pod.{add_networks, added, interface_name, add_pod_network}
use cni_genie.Genie.Selection.{
  get_pod_definition, parse_pod_annotations_for_cni, get_k8s_pod_annotations, parse_cni_annotations,
  read_annotation,
}
use cni_genie.Genie.Memory.{memory, web_pod, web_args}
use cni_genie.Genie.Command.{print_or_fail, cmd_add, cmd_del}
use cni_genie.Genie.Released.{AllReleased}
use cni_genie.Genie.CniAnnotation.{annotated, cmd_del-AllReleased}
use cni_genie.Genie.AddCommand.{EachAdded, cmd_add-EachAdded}

abbrev plain_conf : NetConf
plain_conf = record {
  cni_version = codes "0.3.0";
  policy = record {
    k8s_api_root = [];
    k8s_auth_token = [];
    k8s_client_certificate = [];
    k8s_client_key = [];
    k8s_certificate_authority = [];
  };
  kubernetes = record { k8s_api_root = []; kubeconfig = [] };
  default_plugin = [];
}

abbrev configured : Host
configured = record memory { unmarshal_net_conf = λ t. some plain_conf }

-- a pod with preferences for its addresses
abbrev choosy_pod : Pod
choosy_pod = record web_pod {
  annotations =
      (codes "cni", codes "weave,flannel") ∷ (codes "multi-ip-preferences", codes "{}") ∷ [];
}

abbrev preferring : Host
preferring = record configured { get_pod = λ c ns n s. (ok choosy_pod, s) }

abbrev call_args : CniArgs
call_args = record {
  container_id = codes "abc";
  netns = codes "/proc/1/ns/net";
  if_name = codes "eth0";
  args = codes "K8S_POD_NAME=web";
  path = codes "/opt/cni/bin";
  stdin_data = codes "{}";
}

cmd_del-AllReleased_example :
    cmd_del configured call_args [] ≡ (ok tt, [])
    ↔ AllReleased configured
        (populate_cni_args call_args)
        (annotated configured web_pod.annotations)
        0
        []
        []
unfolding parse_cni_conf load_k8s_args get_kube_client or_error wrap lookup ◌==◌ trim_space
cmd_del-AllReleased_example =
    cmd_del-AllReleased configured call_args plain_conf web_args tt web_pod [] [] [] [] refl refl
      refl refl (λ e. cc)

cmd_add_succeeds : (cmd_add preferring call_args []).0 ≡ ok tt
unfolding add_networks add_network or_error contains itoa eth ◌==◌ ◌>>=◌ find_conf sort_strings
    parse_cni_conf_from_file has_suffix conf_as_list typed_list has_plugins conf_or_default
    runtime_conf load_k8s_args update_pod_definition result_ips insert insert_sorted is_prefix
    number_from split_sep text_le add_preference atoi itoa_next or_crash added interface_name
    get_pod_definition cmd_add parse_cni_conf add_pod_network get_kube_client
    parse_pod_annotations_for_cni get_k8s_pod_annotations parse_cni_annotations read_annotation
    print_or_fail lookup trim_space split
cmd_add_succeeds = refl

cmd_add-EachAdded_example :
    (r : Text) × EachAdded preferring
      (populate_cni_args call_args)
      tt
      web_args
      (annotated preferring choosy_pod.annotations)
      0
      (codes "{}")
      none
      []
      (some r)
unfolding parse_cni_conf load_k8s_args get_kube_client or_error wrap lookup ◌==◌ trim_space
    read_annotation get_k8s_pod_annotations get_pod_definition ◌>>=◌
cmd_add-EachAdded_example =
    cmd_add-EachAdded preferring call_args plain_conf web_args tt choosy_pod (codes "{}") [] [] []
      [] refl refl refl refl (λ e. cc) refl cmd_add_succeeds
