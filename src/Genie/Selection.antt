-- ===== src/Genie/Selection.antt =====
-- Which plugins a pod is connected to (genie/genie-controller.go).
use cni_genie.Base.{
  Text, codes, List, [], ◌∷◌, ◌++◌, map, GoMap, lookup, or_empty, if◌then◌else◌, ◌==◌, split,
  trim_space, Cmd, pure, wrap, attempt, Returned, value, error, ◌>>=◌, ◌>>◌,
}
use cni_genie.Types.{NetConf, K8sArgs, PluginInfo}
use cni_genie.Genie.Host.{
  Host, CallError, Pod, Error, call, at, nw_annotation, cadvisor_list, update_pod,
}
use cni_genie.Genie.Args.{default_plugin}
use cni_genie.Genie.Networks.{get_plugin_info_from_nw_annot}
use cni_genie.Genie.Bandwidth.{get_cns_order_by_network_bandwith}

-- A plugin with nothing else said.
abbrev pub named_plugin : Text → PluginInfo
named_plugin name = record { plugin_name = name; if_name = []; subnet = []; refer_nic = [] }

abbrev pub annotation : GoMap Text → Text → Text
annotation m key = or_empty (lookup key m)

-- an error of the API server leaves a nil map
abbrev pub annotations_or_nil : Returned Error (GoMap Text) → GoMap Text
annotations_or_nil (value m) = m
annotations_or_nil (error _) = []

-- {"metadata":{"annotations":{"cni":"…"}}}
abbrev pub cni_patch : Text → Text
cni_patch cns = codes "{\"metadata\":{\"annotations\":{\"cni\":\"" ++ cns ++ codes "\"}}}"

module _ (h : Host) where
  open h use {State, Client, get_pod, patch_pod}

  abbrev pub M : Type 0 → Type 0
  M A = Cmd State Error A

  unfoldable pub get_pod_definition : Client → Text → Text → Cmd State CallError Pod
  get_pod_definition client namespace name = get_pod client namespace name

  unfoldable pub get_k8s_pod_annotations : Client → K8sArgs → M (GoMap Text)
  get_k8s_pod_annotations client k8s = do
    pod ← wrap call (get_pod_definition client k8s.k8s_pod_namespace k8s.k8s_pod_name)
    pure pod.annotations

  -- `ParsePodAnnotationsForMultiIPPrefs` and `ParsePodAnnotationsForNetworks`: one annotation of a
  -- fresh read, empty if it fails
  unfoldable pub read_annotation : Client → K8sArgs → Text → M Text
  read_annotation client k8s key = do
    annot ← attempt {F = Error} (get_k8s_pod_annotations client k8s)
    pure (annotation (annotations_or_nil annot) key)

  -- the plugin with the least traffic is chosen, and written to the pod
  unfoldable pub ideal_plugin : Client → K8sArgs → M (List PluginInfo)
  ideal_plugin client k8s = do
    cns ←
        wrap (at cadvisor_list)
          (get_cns_order_by_network_bandwith h (codes "http://127.0.0.1:4194"))
    pod ← wrap (λ e. at update_pod (call e)) (get_pod client k8s.k8s_pod_namespace k8s.k8s_pod_name)
    wrap (λ e. at update_pod (call e))
        (patch_pod client k8s.k8s_pod_namespace pod.name (cni_patch cns))
    attempt {F = Error} (get_pod client k8s.k8s_pod_namespace k8s.k8s_pod_name)
    pure (named_plugin cns ∷ [])

  -- with no "cni" annotation: the logical networks, or the plugin with the least traffic
  unfoldable pub by_networks : GoMap Text → Client → K8sArgs → Text → M (List PluginInfo)
  by_networks annot client k8s [] = ideal_plugin client k8s
  by_networks annot client k8s (c ∷ cs) = wrap (at nw_annotation) (
      get_plugin_info_from_nw_annot h (trim_space (annotation annot (codes "networks")))
        k8s.k8s_pod_namespace client)

  unfoldable pub without_cni : GoMap Text → Client → K8sArgs → M (List PluginInfo)
  without_cni annot client k8s = do
    networks ← read_annotation client k8s (codes "networks")
    by_networks annot client k8s networks

  unfoldable pub parse_cni_annotations :
      GoMap Text → Client → K8sArgs → NetConf → M (List PluginInfo)
  parse_cni_annotations [] client k8s conf = pure (named_plugin (default_plugin conf) ∷ [])
  parse_cni_annotations (a ∷ as_) client k8s conf =
      let cni = annotation (a ∷ as_) (codes "cni") in
      if trim_space cni == []
      then without_cni (a ∷ as_) client k8s
      else pure (map named_plugin (split cni b','))

  unfoldable pub parse_pod_annotations_for_cni : Client → K8sArgs → NetConf → M (List PluginInfo)
  parse_pod_annotations_for_cni client k8s conf = do
    annot ← get_k8s_pod_annotations client k8s
    parse_cni_annotations annot client k8s conf
