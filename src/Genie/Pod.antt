-- ===== src/Genie/Pod.antt =====
-- Adding and deleting the networks of a pod (genie/genie-controller.go).
use cni_genie.Base.{
  Text, codes, ℕ, suc, Option, none, some, List, [], ◌∷◌, if◌then◌else◌, ◌==◌, Cmd, pure, raise,
  lift, wrap, attempt, Returned, value, error, ◌>>=◌,
}
use cni_genie.Types.{CniArgs, NetConf, K8sArgs, PluginInfo}
use cni_genie.Genie.Host.{
  Host, Error, at, at_load_args, at_kube_client, at_pod_annotations, at_add_network,
  at_delete_network,
}
use cni_genie.Genie.Args.{load_k8s_args, get_kube_client}
use cni_genie.Genie.Conf.{add_network, delete_network}
use cni_genie.Genie.Networks.{eth}
use cni_genie.Genie.Selection.{parse_pod_annotations_for_cni, read_annotation}
use cni_genie.Genie.MultiIp.{update_pod_definition}

-- the interface of the plugin at an index
unfoldable pub interface_name : ℕ → PluginInfo → Text
interface_name i p = if p.if_name == [] then eth i else p.if_name

-- `newErr = err` where `err` is not nil
abbrev pub last_error : {A : Type 0} → Returned Error A → Option Error → Option Error
last_error (value _) old = old
last_error (error e) old = some e

abbrev pub result_of : {A : Type 0} → Returned Error A → Option A
result_of (value a) = some a
result_of (error _) = none

abbrev pub text_or : Returned Error Text → Text → Text
text_or (value t) old = t
text_or (error _) old = old

module _ (h : Host) where
  open h use {State, Client, CniResult}

  abbrev pub M : Type 0 → Type 0
  M A = Cmd State Error A

  -- the end of `AddPodNetwork`
  unfoldable pub added : Option CniResult → Option Error → M (Option CniResult)
  added result none = pure result
  added result (some e) = raise (at at_add_network e)

  -- the loop of `AddPodNetwork`: every plugin is called, also after an error; the last error counts
  unfoldable pub add_networks :
      CniArgs
      → Client
      → K8sArgs
      → List PluginInfo
      → ℕ
      → Text
      → Option CniResult
      → Option Error
      → M (Option CniResult)
  add_networks cni client k8s [] i annot result new_err = added result new_err
  add_networks cni client k8s (p ∷ ps) i annot result new_err = do
    got ← attempt {F = Error} (add_network h (interface_name i p) p.plugin_name cni)
    updated ←
        attempt {F = Error}
          (update_pod_definition h (interface_name i p) (result_of got) annot client k8s)
    add_networks cni client k8s ps (suc i) (text_or updated annot) (result_of got)
        (last_error updated (last_error got new_err))

  unfoldable pub add_pod_network : CniArgs → NetConf → M (Option CniResult)
  add_pod_network cni conf = do
    k8s ← wrap (at at_load_args) (lift (load_k8s_args h cni))
    client ← wrap (at at_kube_client) (get_kube_client h conf)
    plugins ← wrap (at at_pod_annotations) (parse_pod_annotations_for_cni h client k8s conf)
    annot ← read_annotation h client k8s (codes "multi-ip-preferences")
    add_networks cni client k8s plugins 0 annot none none

  -- the end of `DeletePodNetwork`
  unfoldable pub deleted : Option Error → M (Unit {0})
  deleted none = pure tt
  deleted (some e) = raise (at at_delete_network e)

  -- the loop of `DeletePodNetwork`
  unfoldable pub delete_networks : CniArgs → List PluginInfo → ℕ → Option Error → M (Unit {0})
  delete_networks cni [] i new_err = deleted new_err
  delete_networks cni (p ∷ ps) i new_err = do
    gone ← attempt {F = Error} (delete_network h (interface_name i p) p.plugin_name cni)
    delete_networks cni ps (suc i) (last_error gone new_err)

  unfoldable pub delete_pod_network : CniArgs → NetConf → M (Unit {0})
  delete_pod_network cni conf = do
    k8s ← wrap (at at_load_args) (lift (load_k8s_args h cni))
    client ← wrap (at at_kube_client) (get_kube_client h conf)
    plugins ← wrap (at at_pod_annotations) (parse_pod_annotations_for_cni h client k8s conf)
    delete_networks cni plugins 0 none
