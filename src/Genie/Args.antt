-- ===== src/Genie/Args.antt =====
-- The arguments of a CNI call and the client's configuration (genie/genie-controller.go).
use cni_genie.Base.{
  Text, codes, not, ◌&&◌, Option, none, some, List, [], ◌∷◌, ◌++◌, if◌then◌else◌, ◌==◌, split_sep,
  Cmd, GoResult, ok, err, pure, lift, wrap, ◌>>=◌,
}
use cni_genie.Types.{CniArgs, NetConf, K8sArgs}
use cni_genie.Genie.Host.{
  Host, RuntimeConf, ConfigOverrides, Error, call, plain, at_load_args, load_net_conf,
}

-- skel.CmdArgs has the fields of CniArgs
unfoldable pub populate_cni_args : CniArgs → CniArgs
populate_cni_args a = record {
  container_id = a.container_id;
  netns = a.netns;
  if_name = a.if_name;
  args = a.args;
  path = a.path;
  stdin_data = a.stdin_data;
}

-- the first part of a split, which is never empty
abbrev first_part : List Text → Text
first_part [] = []
first_part (t ∷ ts) = t

-- one entry of the override map: a value that is not empty
abbrev override : Text → Text → Text
override value old = if value == [] then old else value

-- the overrides that `GetKubeClient` passes on
unfoldable pub config_overrides : NetConf → ConfigOverrides
config_overrides conf = record {
  server =
      override conf.kubernetes.k8s_api_root
        (override (first_part (split_sep conf.policy.k8s_api_root (codes "/api/"))) []);
  client_certificate = override conf.policy.k8s_client_certificate [];
  client_key = override conf.policy.k8s_client_key [];
  certificate_authority = override conf.policy.k8s_certificate_authority [];
  token = override conf.policy.k8s_auth_token [];
}

-- the workload's and the orchestrator's identifiers
unfoldable pub get_identifiers : CniArgs → K8sArgs → Text × Text
get_identifiers cni k8s =
    if not (k8s.k8s_pod_namespace == []) && not (k8s.k8s_pod_name == [])
    then (k8s.k8s_pod_namespace ++ codes "." ++ k8s.k8s_pod_name, codes "k8s")
    else (cni.container_id, codes "cni")

unfoldable pub default_plugin : NetConf → Text
default_plugin conf = if conf.default_plugin == [] then codes "weave" else conf.default_plugin

unfoldable pub or_error {ℓ} : {E A : Type ℓ} → E → Option A → GoResult E A
or_error e none = err e
or_error e (some a) = ok a

module _ (h : Host) where
  open h use {State, Client, load_args, unmarshal_net_conf, new_client}

  unfoldable pub parse_cni_conf : Text → GoResult Error NetConf
  parse_cni_conf bytes = or_error (plain load_net_conf) (unmarshal_net_conf bytes)

  unfoldable pub load_k8s_args : CniArgs → GoResult Error K8sArgs
  load_k8s_args cni = or_error (plain at_load_args) (load_args cni.args)

  unfoldable pub get_kube_client : NetConf → Cmd State Error Client
  get_kube_client conf = wrap call (new_client conf.kubernetes.kubeconfig (config_overrides conf))

  unfoldable pub runtime_conf : CniArgs → Text → Cmd State Error RuntimeConf
  runtime_conf cni iface = do
    k8s ← lift (load_k8s_args cni)
    pure (record {
      container_id = cni.container_id;
      net_ns = cni.netns;
      if_name = iface;
      args =
          (codes "IgnoreUnknown", if k8s.ignore_unknown then codes "1" else codes "0")
          ∷ (codes "K8S_POD_NAMESPACE", k8s.k8s_pod_namespace)
          ∷ (codes "K8S_POD_NAME", k8s.k8s_pod_name)
          ∷ (codes "K8S_POD_INFRA_CONTAINER_ID", k8s.k8s_pod_infra_container_id)
          ∷ [];
    })
