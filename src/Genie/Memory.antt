-- ===== src/Genie/Memory.antt =====
-- An in-memory host with one pod, for tests: its state lists the networks that are attached.
use cni_genie.Base.{Text, codes, true, none, some, List, [], ◌∷◌, map, ok}
use cni_genie.Types.{K8sArgs}
use cni_genie.Genie.Host.{Host, Pod}

-- an interface and the configuration that it belongs to
abbrev pub Attached : Type 0
Attached = List (Text × Text)

abbrev pub web_pod : Pod
web_pod = record { name = codes "web"; annotations = (codes "cni", codes "weave,flannel") ∷ [] }

abbrev pub web_args : K8sArgs
web_args = record {
  ignore_unknown = true;
  k8s_pod_name = codes "web";
  k8s_pod_namespace = codes "ns";
  k8s_pod_infra_container_id = codes "infra";
}

abbrev files : List Text
files = codes "/etc/cni/net.d/20-weave.conf" ∷ codes "/etc/cni/net.d/10-flannel.conf" ∷ []

abbrev pub memory : Host
memory = record {
  State = Attached;
  Client = Unit;
  Config = Text;
  ConfigList = Text;
  CniResult = Text;
  load_args = λ t. some web_args;
  unmarshal_net_conf = λ t. none;
  unmarshal_logical_network = λ t. some (record {
    name = t;
    namespace = codes "ns";
    resource_version = codes "1";
    physical_net = codes "phys";
    sub_subnet = codes "10.1.0.0/24";
    plugin = codes "weave";
  });
  unmarshal_physical_network = λ t. some (record {
    refer_nic = codes "eno1";
    plugin = codes "flannel";
    subnet = codes "10.0.0.0/8";
    dedicated_status = true;
  });
  unmarshal_preferences = λ t. record { multi_entry = 0; ips = some [] };
  marshal_preferences = λ p. some (codes "preferences");
  unmarshal_container_info = λ t. some (record { stats = [] });
  quote = λ t. t;
  new_client = λ path o s. (ok tt, s);
  get_pod = λ c ns n s. (ok web_pod, s);
  patch_pod = λ c ns n p s. (ok web_pod, s);
  get_raw = λ c path s. (ok path, s);
  conf_files = λ d e s. (ok files, s);
  read_dir = λ d s. (ok (codes "weave" ∷ codes "flannel" ∷ []), s);
  write_file = λ f b s. (ok tt, s);
  conf_list_from_file = λ f s. (ok f, s);
  conf_from_file = λ f s. (ok f, s);
  conf_from_bytes = λ b. ok b;
  conf_list_from_conf = λ c. ok c;
  network_type = λ c. codes "weave";
  plugin_types = λ c. codes "weave" ∷ [];
  add_network_list = λ c rt s. (ok (codes "10.1.0.2"), (rt.if_name, c) ∷ s);
  del_network_list = λ c rt s. (ok tt, s);
  current_ips = λ r. ok (r ∷ []);
  print_result = λ r v s. (ok tt, s);
  http_get = λ u s. (ok none, s);
  http_post = λ u b s. (ok none, s);
  route_output = λ s. (ok (codes "eth0"), s);
  marshal_fields = λ fs. some (codes "conf");
  range_keys = λ m. map (λ e. e.0) m;
}
