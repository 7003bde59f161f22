-- ===== src/Genie/MultiIp/Written.antt =====
-- What `UpdatePodDefinition` has written when it returns no error.
use cni_genie.Base.{
  Text, codes, ◌≡◌, ap, sym, ◌∙◌, Option, none, some, List, [], ◌∷◌, GoResult, ok, Cmd, pure, crash,
  lift, wrap, bind-done, wrap-done, wrap-lift_done, ◌>>=◌, ◌>>◌, split_sep,
}
use cni_genie.Types.{K8sArgs, MultiIpPreferences}
use cni_genie.Genie.Host.{Host, Error, Pod, call, at, plain, update_pod, get_pod_site, marshal_conf}
use cni_genie.Genie.Args.{or_error}
use cni_genie.Genie.Selection.{get_pod_definition}
use cni_genie.Genie.MultiIp.{
  second, ip_patch, add_preference, result_ips, or_crash, update_pod_definition,
}

module _ (h : Host) (client : h.Client) (k8s : K8sArgs) where
  open h use {State, CniResult}

  -- From `s` to `t` the pod was patched with `text`: the preferences of `annot` with the first address
  -- of the result `r`, under the interface's index.
  pub record Patched (intf : Text) (r : CniResult) (annot : Text) (s : State) (text : Text)
      (t : State) : Type 0 where
    pub ips : List Text
    pub next : MultiIpPreferences
    pub pod : Pod
    pub answer : Pod
    pub read : State
    pub addresses : h.current_ips r ≡ ok ips
    pub adds :
        add_preference intf
          (second (split_sep intf (codes "eth")))
          ips
          (h.unmarshal_preferences annot)
          (h.unmarshal_preferences annot).ips
        ≡ some next
    pub prints : h.marshal_preferences next ≡ some text
    pub reads : h.get_pod client k8s.k8s_pod_namespace k8s.k8s_pod_name s ≡ (ok pod, read)
    pub writes :
        h.patch_pod client k8s.k8s_pod_namespace pod.name (ip_patch (h.quote text)) read
        ≡ (ok answer, t)

  -- Without preferences nothing is written; with preferences the pod is patched.
  abbrev pub Written : Text → CniResult → Text → State → Text → State → Type 0
  Written intf r [] s text t = (text ≡ []) × (t ≡ s)
  Written intf r (c ∷ cs) s text t = Patched intf r (c ∷ cs) s text t

  or_crash-done :
      {A : Type 0} (o : Option A) (s t : State) (a : A)
      → or_crash h o s ≡ (ok a, t)
      → (o ≡ some a) × (s ≡ t)
  unfolding or_crash pure crash
  or_crash-done none s t a e = (let bad = ap (λ r. r.0) e in cc)
  or_crash-done (some b) s t a e = (let same = ap (λ r. r.0) e in (cc, ap (λ r. r.1) e))

  or_error-done :
      {A : Type 0} (x : Error) (o : Option A) (s t : State) (a : A)
      → lift (or_error x o) s ≡ (ok a, t)
      → (o ≡ some a) × (s ≡ t)
  unfolding or_error lift
  or_error-done x none s t a e = (let bad = ap (λ r. r.0) e in cc)
  or_error-done x (some b) s t a e = (let same = ap (λ r. r.0) e in (cc, ap (λ r. r.1) e))

  result_ips-done :
      (r : CniResult) (s t : State) (ips : List Text)
      → result_ips h (some r) s ≡ (ok ips, t)
      → (h.current_ips r ≡ ok ips) × (s ≡ t)
  unfolding result_ips
  result_ips-done r s t ips e = wrap-lift_done _ (h.current_ips r) s t ips e

  -- the end of the update
  abbrev write : Text → Cmd State Error Text
  write text = do
    pod ←
        wrap (λ e. at get_pod_site (call e))
          (get_pod_definition h client k8s.k8s_pod_namespace k8s.k8s_pod_name)
    wrap (λ e. at update_pod (call e))
        (h.patch_pod client k8s.k8s_pod_namespace pod.name (ip_patch (h.quote text)))
    pure text

  record Wrote (s : State) (text : Text) (t : State) : Type 0 where
    pod : Pod
    answer : Pod
    read : State
    reads : h.get_pod client k8s.k8s_pod_namespace k8s.k8s_pod_name s ≡ (ok pod, read)
    writes :
        h.patch_pod client k8s.k8s_pod_namespace pod.name (ip_patch (h.quote text)) read
        ≡ (ok answer, t)

  write-done :
      (new text : Text) (s t : State) → write new s ≡ (ok text, t) → (new ≡ text) × Wrote s new t
  unfolding get_pod_definition pure
  write-done new text s t e =
      let read = h.get_pod client k8s.k8s_pod_namespace k8s.k8s_pod_name in
      let (pod, u, e1, k1) = bind-done (wrap (λ x. at get_pod_site (call x)) read) _ s t text e in
      let patch = h.patch_pod client k8s.k8s_pod_namespace pod.name (ip_patch (h.quote new)) in
      let (answer, v, e2, k2) =
        bind-done (wrap (λ x. at update_pod (call x)) patch) _ u t text k1 in
      (
        text_same (ap (λ q. q.0) k2),
        record {
          pod = pod;
          answer = answer;
          read = u;
          reads = wrap-done _ read s u pod e1;
          writes = wrap-done _ patch u v answer e2 ∙ ap (λ q. (ok answer, q.1)) k2;
        },
      )
    where
      text_same : {a b : Text} → ◌≡◌ {A = GoResult Error Text} (ok a) (ok b) → a ≡ b
      text_same h = cc

  patched :
      (intf annot text : Text) (r : CniResult) (s t : State) (ips : List Text)
      (next : MultiIpPreferences) (new : Text)
      → h.current_ips r ≡ ok ips
      → add_preference intf
          (second (split_sep intf (codes "eth")))
          ips
          (h.unmarshal_preferences annot)
          (h.unmarshal_preferences annot).ips
        ≡ some next
      → h.marshal_preferences next ≡ some new
      → write new s ≡ (ok text, t)
      → Patched intf r annot s text t
  patched intf annot text r s t ips next new addresses adds prints e =
      let (same, w) = write-done new text s t e in
      rw (← same) (record {
        ips = ips;
        next = next;
        pod = w.pod;
        answer = w.answer;
        read = w.read;
        addresses = addresses;
        adds = adds;
        prints = prints;
        reads = w.reads;
        writes = w.writes;
      })

  -- An update that returns no error has written this.
  pub update_pod_definition-Written :
      (intf annot text : Text) (r : CniResult) (s t : State)
      → update_pod_definition h intf (some r) annot client k8s s ≡ (ok text, t)
      → Written intf r annot s text t
  unfolding update_pod_definition pure
  update_pod_definition-Written intf [] text r s t e =
      (let same = ap (λ q. q.0) e in (cc, sym (ap (λ q. q.1) e)))
  update_pod_definition-Written intf (c ∷ cs) text r s t e =
      let prefs = h.unmarshal_preferences (c ∷ cs) in
      let (ips, s1, e1, k1) = bind-done (result_ips h (some r)) _ s t text e in
      let (addresses, at1) = result_ips-done r s s1 ips e1 in
      let added = add_preference intf (second (split_sep intf (codes "eth"))) ips prefs prefs.ips in
      let (next, s2, e2, k2) = bind-done (or_crash h added) _ s1 t text k1 in
      let (adds, at2) = or_crash-done added s1 s2 next e2 in
      let printed = h.marshal_preferences next in
      let (new, s3, e3, k3) =
        bind-done (lift (or_error (plain marshal_conf) printed)) _ s2 t text k2 in
      let (prints, at3) = or_error-done (plain marshal_conf) printed s2 s3 new e3 in
      patched intf (c ∷ cs) text r s t ips next new addresses adds prints
        (ap (write new) (at1 ∙ at2 ∙ at3) ∙ k3)
