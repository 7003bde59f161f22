-- ===== src/Genie/AddCommand.antt =====
-- The command that adds a pod whose "cni" annotation names its plugins.
use cni_genie.Base.{
  ℕ, suc, List, ◌∷◌, Text, codes, ◌≡◌, ◌≢◌, ap, sym, ◌∙◌, Option, none, some, [], ok, wrap,
  wrap-run, wrap-lift_run, bind-run, bind-ok, bind-err, bind-panic, lift, raise, Cmd,
  GoResult-cases, inl, inr, wrap-ok_iff, trim_space, ◌>>=◌, Option-cases,
}
use cni_genie.Types.{CniArgs, K8sArgs, NetConf, PluginInfo}
use cni_genie.Genie.Host.{
  Host, Error, Pod, at, load_net_conf, add_ip, at_load_args, at_kube_client, at_pod_annotations,
}
use cni_genie.Genie.Args.{populate_cni_args, parse_cni_conf, load_k8s_args, get_kube_client}
use cni_genie.Genie.Selection.{annotation, read_annotation, parse_pod_annotations_for_cni}
use cni_genie.Genie.Pod.{add_networks, add_pod_network, interface_name}
use cni_genie.Genie.Conf.{add_network}
use cni_genie.Genie.MultiIp.{update_pod_definition}
use cni_genie.Genie.MultiIp.Written.{Written, update_pod_definition-Written}
use cni_genie.Genie.PluginCalls.{Added, add_network-Added}
use cni_genie.Genie.PodNetworks.{AllAdded, add_networks-ok}
use cni_genie.Genie.Command.{print_or_fail, cmd_add}
use cni_genie.Genie.CniAnnotation.{annotated, parse_pod-annotated}

module _ (h : Host) (cni : CniArgs) (client : h.Client) (k8s : K8sArgs) where
  -- For each plugin in turn: a configuration was found or made and its plugins were called for the
  -- interface to add the network, without an error; and then the pod was patched with the address,
  -- if it has preferences. `last` is the result of the last one.
  abbrev pub EachAdded :
      List PluginInfo → ℕ → Text → Option h.CniResult → h.State → Option h.CniResult → Type 0
  EachAdded [] i annot result s last = result ≡ last
  EachAdded (p ∷ ps) i annot result s last =
      (r : h.CniResult) × (u : h.State) × Added h cni (interface_name i p) p.plugin_name s r u
      × ((t : Text) × (v : h.State) × Written h client k8s (interface_name i p) r annot u t v
          × EachAdded ps (suc i) t (some r) v last)

  pub AllAdded-EachAdded :
      (ps : List PluginInfo) (i : ℕ) (annot : Text) (result last : Option h.CniResult) (s : h.State)
      → AllAdded h cni client k8s ps i annot result s last
      → EachAdded ps i annot result s last
  AllAdded-EachAdded [] i annot result last s e = e
  AllAdded-EachAdded (p ∷ ps) i annot result last s (r, got, (t, (written, rest))) =
      let intf = interface_name i p in
      let u = (add_network h intf p.plugin_name cni s).1 in
      let update = update_pod_definition h intf (some r) annot client k8s in
      (
        r,
        u,
        add_network-Added h cni intf p.plugin_name s u r (ap (λ o. (o, u)) got),
        (
          t,
          (update u).1,
          update_pod_definition-Written h client k8s intf annot t r u (update u).1
              (ap (λ o. (o, (update u).1)) written),
          AllAdded-EachAdded ps (suc i) t (some r) last (update u).1 rest,
        ),
      )

module _ (h : Host) where
  add_pod_network-annotated :
      (cni : CniArgs) (conf : NetConf) (k8s : K8sArgs) (client : h.Client) (pod : Pod)
      (annot : Text) (s t u v : h.State)
      → load_k8s_args h cni ≡ ok k8s
      → get_kube_client h conf s ≡ (ok client, t)
      → h.get_pod client k8s.k8s_pod_namespace k8s.k8s_pod_name t ≡ (ok pod, u)
      → trim_space (annotation pod.annotations (codes "cni")) ≢ []
      → read_annotation h client k8s (codes "multi-ip-preferences") u ≡ (ok annot, v)
      → add_pod_network h cni conf s
        ≡ add_networks h cni client k8s (annotated h pod.annotations) 0 annot none none v
  unfolding add_pod_network
  add_pod_network-annotated cni conf k8s client pod annot s t u v e2 e3 e4 n e5 =
      let parse = parse_pod_annotations_for_cni h client k8s conf in
      bind-run (wrap (at at_load_args) (lift (load_k8s_args h cni))) _ s s k8s
        (wrap-lift_run _ (load_k8s_args h cni) s k8s e2)
      ∙ bind-run (wrap (at at_kube_client) (get_kube_client h conf)) _ s t client
          (wrap-run _ (get_kube_client h conf) s t client e3)
      ∙ bind-run (wrap (at at_pod_annotations) parse) _ t u (annotated h pod.annotations)
          (wrap-run _ parse t u _ (parse_pod-annotated h client k8s conf pod t u e4 n))
      ∙ bind-run (read_annotation h client k8s (codes "multi-ip-preferences")) _ u v annot e5

  -- a command that prints succeeds only on a result
  printed :
      (conf : NetConf) (m : Cmd h.State Error (Option h.CniResult)) (s : h.State)
      → ((m >>= print_or_fail h conf) s).0 ≡ ok tt
      → (r : h.CniResult) × ((m s).0 ≡ ok (some r))
  unfolding print_or_fail raise
  printed conf m s e = elim (GoResult-cases (m s).0) [
    | inl (o, k) ↦ elim (Option-cases o) [
      | inl nil ↦
          (let failed = bind-ok m (print_or_fail h conf) s o k in
            let bad = rw (failed, nil) at e in cc)
      | inr (r, there) ↦ (r, k ∙ ap ok there)
    ]
    | inr (inl (x, k)) ↦ (let bad = rw (bind-err m (print_or_fail h conf) s x k) at e in cc)
    | inr (inr k) ↦ (let bad = rw (bind-panic m (print_or_fail h conf) s k) at e in cc)
  ]

  -- Where the configuration and the arguments are read, the client is made, the pod is read with a
  -- "cni" annotation that is not blank, and its preferences are read: if the command for addition
  -- succeeds, then for each plugin that the annotation names, in its order, in the state that the one
  -- before it left, its first valid configuration was found or a default one made, and the plugins of
  -- this configuration were called to add the network, under the interface name eth0, eth1 and so on,
  -- without an error. If there are preferences, the pod was then patched with them and the first
  -- address of the call's result under the interface's index, and these are the preferences for the
  -- next plugin; without preferences the pod was not patched. The last call gave a result.
  pub cmd_add-EachAdded :
      (args : CniArgs) (conf : NetConf) (k8s : K8sArgs) (client : h.Client) (pod : Pod)
      (annot : Text) (s t u v : h.State)
      → parse_cni_conf h args.stdin_data ≡ ok conf
      → load_k8s_args h (populate_cni_args args) ≡ ok k8s
      → get_kube_client h conf s ≡ (ok client, t)
      → h.get_pod client k8s.k8s_pod_namespace k8s.k8s_pod_name t ≡ (ok pod, u)
      → trim_space (annotation pod.annotations (codes "cni")) ≢ []
      → read_annotation h client k8s (codes "multi-ip-preferences") u ≡ (ok annot, v)
      → (cmd_add h args s).0 ≡ ok tt
      → (r : h.CniResult) × EachAdded h
          (populate_cni_args args)
          client
          k8s
          (annotated h pod.annotations)
          0
          annot
          none
          v
          (some r)
  unfolding cmd_add
  cmd_add-EachAdded args conf k8s client pod annot s t u v e1 e2 e3 e4 n e5 done =
      let cni = populate_cni_args args in
      let add = add_pod_network h cni conf in
      let run : cmd_add h args s ≡ (wrap (at add_ip) add >>= print_or_fail h conf) s =
        bind-run (wrap (at load_net_conf) (lift (parse_cni_conf h args.stdin_data))) _ s s conf
          (wrap-lift_run _ (parse_cni_conf h args.stdin_data) s conf e1) in
      let (r, got) = printed conf (wrap (at add_ip) add) s (sym (ap (λ o. o.0) run) ∙ done) in
      let loop = add_pod_network-annotated cni conf k8s client pod annot s t u v e2 e3 e4 n e5 in
      let added = (wrap-ok_iff (at add_ip) add s (some r)).0 got in
      let each =
        add_networks-ok h cni client k8s _ annot (some r) v (sym (ap (λ o. o.0) loop) ∙ added) in
      (r, AllAdded-EachAdded h cni client k8s _ 0 annot none (some r) v each)
