-- ===== src/Genie/CniAnnotation.antt =====
-- A pod whose "cni" annotation names its plugins, from the command to the plugins' calls.
use cni_genie.Base.{
  Text, codes, ◌≡◌, ◌≢◌, ◌↔◌, refl, ◌∙◌, none, List, [], ◌∷◌, map, GoMap, ok, wrap, lift, pure,
  split, trim_space, eq_false_of_ne, bind-run, wrap-run, wrap-lift_run, wrap-done, sym, lookup,
}
use cni_genie.Types.{CniArgs, K8sArgs, NetConf, PluginInfo}
use cni_genie.Genie.Host.{
  Host, Pod, call, at, load_net_conf, release_ip, at_load_args, at_kube_client, at_pod_annotations,
}
use cni_genie.Genie.Args.{populate_cni_args, parse_cni_conf, load_k8s_args, get_kube_client}
use cni_genie.Genie.Selection.{
  named_plugin, annotation, get_pod_definition, get_k8s_pod_annotations, parse_cni_annotations,
  parse_pod_annotations_for_cni,
}
use cni_genie.Genie.Pod.{delete_networks, delete_pod_network}
use cni_genie.Genie.Released.{AllReleased, delete_networks-done}
use cni_genie.Genie.Command.{cmd_del}

module _ (h : Host) where
  -- The plugins that the annotation names, with no interface names of their own.
  abbrev pub annotated : GoMap Text → List PluginInfo
  annotated annot = map named_plugin (split (annotation annot (codes "cni")) b',')

  parse_cni_annotations-annotated :
      (annot : GoMap Text) (client : h.Client) (k8s : K8sArgs) (conf : NetConf) (s : h.State)
      → trim_space (annotation annot (codes "cni")) ≢ []
      → parse_cni_annotations h annot client k8s conf s ≡ (ok (annotated annot), s)
  unfolding parse_cni_annotations pure trim_space lookup
  parse_cni_annotations-annotated [] client k8s conf s n = absurd (n refl)
  parse_cni_annotations-annotated (a ∷ annot) client k8s conf s n =
      rw (parse_cni_annotations, eq_false_of_ne _ [] n) refl

  pub parse_pod-annotated :
      (client : h.Client) (k8s : K8sArgs) (conf : NetConf) (pod : Pod) (s t : h.State)
      → h.get_pod client k8s.k8s_pod_namespace k8s.k8s_pod_name s ≡ (ok pod, t)
      → trim_space (annotation pod.annotations (codes "cni")) ≢ []
      → parse_pod_annotations_for_cni h client k8s conf s ≡ (ok (annotated pod.annotations), t)
  unfolding parse_pod_annotations_for_cni get_k8s_pod_annotations get_pod_definition pure
  parse_pod-annotated client k8s conf pod s t e n =
      let read = h.get_pod client k8s.k8s_pod_namespace k8s.k8s_pod_name in
      bind-run (get_k8s_pod_annotations h client k8s) _ s t pod.annotations
        (bind-run (wrap call read) _ s t pod (wrap-run call read s t pod e))
      ∙ parse_cni_annotations-annotated pod.annotations client k8s conf t n

  delete_pod_network-annotated :
      (cni : CniArgs) (conf : NetConf) (k8s : K8sArgs) (client : h.Client) (pod : Pod)
      (s t u : h.State)
      → load_k8s_args h cni ≡ ok k8s
      → get_kube_client h conf s ≡ (ok client, t)
      → h.get_pod client k8s.k8s_pod_namespace k8s.k8s_pod_name t ≡ (ok pod, u)
      → trim_space (annotation pod.annotations (codes "cni")) ≢ []
      → delete_pod_network h cni conf s ≡ delete_networks h cni (annotated pod.annotations) 0 none u
  unfolding delete_pod_network
  delete_pod_network-annotated cni conf k8s client pod s t u e2 e3 e4 n =
      let parse = parse_pod_annotations_for_cni h client k8s conf in
      bind-run (wrap (at at_load_args) (lift (load_k8s_args h cni))) _ s s k8s
        (wrap-lift_run _ (load_k8s_args h cni) s k8s e2)
      ∙ bind-run (wrap (at at_kube_client) (get_kube_client h conf)) _ s t client
          (wrap-run _ (get_kube_client h conf) s t client e3)
      ∙ bind-run (wrap (at at_pod_annotations) parse) _ t u (annotated pod.annotations)
          (wrap-run _ parse t u _ (parse_pod-annotated client k8s conf pod t u e4 n))

  -- Where the configuration and the arguments are read, the client is made and the pod is read with
  -- a "cni" annotation that is not blank: the command for deletion succeeds exactly if for each plugin
  -- that the annotation names, in its order, in the state that the one before it left, there are .conf
  -- files and one of two things was done. The first valid one of the plugin's was found, and the
  -- plugins of that configuration were called to delete the network, under the interface name eth0,
  -- eth1 and so on, without an error; or none of the plugin's files is valid, and no plugin was called.
  pub cmd_del-AllReleased :
      (args : CniArgs) (conf : NetConf) (k8s : K8sArgs) (client : h.Client) (pod : Pod)
      (s t u v : h.State)
      → parse_cni_conf h args.stdin_data ≡ ok conf
      → load_k8s_args h (populate_cni_args args) ≡ ok k8s
      → get_kube_client h conf s ≡ (ok client, t)
      → h.get_pod client k8s.k8s_pod_namespace k8s.k8s_pod_name t ≡ (ok pod, u)
      → trim_space (annotation pod.annotations (codes "cni")) ≢ []
      → cmd_del h args s ≡ (ok tt, v)
        ↔ AllReleased h (populate_cni_args args) (annotated pod.annotations) 0 u v
  unfolding cmd_del
  cmd_del-AllReleased args conf k8s client pod s t u v e1 e2 e3 e4 n =
      let cni = populate_cni_args args in
      let ps = annotated pod.annotations in
      let delete = delete_pod_network h cni conf in
      let run : cmd_del h args s ≡ wrap (at release_ip) delete s =
        bind-run (wrap (at load_net_conf) (lift (parse_cni_conf h args.stdin_data))) _ s s conf
          (wrap-lift_run _ (parse_cni_conf h args.stdin_data) s conf e1) in
      let loop = delete_pod_network-annotated cni conf k8s client pod s t u e2 e3 e4 n in
      let released = delete_networks-done h cni ps u v in
      (
        λ e. released.0 (sym loop ∙ wrap-done (at release_ip) delete s v tt (sym run ∙ e)),
        λ a. run ∙ wrap-run (at release_ip) delete s v tt (loop ∙ released.1 a),
      )
