-- ===== src/Genie/PodNetworks.antt =====
-- When `AddPodNetwork` succeeds.
use cni_genie.Base.{
  Text, ℕ, suc, ◌≡◌, refl, Option, none, some, List, [], ◌∷◌, Cmd, ok, pure, raise, attempt,
  Returned, ◌>>=◌, inl, inr, GoResult-cases, attempt-bind_ok, attempt-bind_err, attempt-bind_panic,
}
use cni_genie.Types.{CniArgs, K8sArgs, PluginInfo}
use cni_genie.Genie.Host.{Host, Error}
use cni_genie.Genie.Conf.{add_network}
use cni_genie.Genie.MultiIp.{update_pod_definition}
use cni_genie.Genie.Pod.{interface_name, added, add_networks, text_or, result_of, last_error}

module _ (h : Host) (cni : CniArgs) where
  module _ (client : h.Client) (k8s : K8sArgs) where
    -- Each plugin adds its network and the addresses are written to the pod, one after the other;
    -- `last` is the result of the last one.
    abbrev pub AllAdded :
        List PluginInfo → ℕ → Text → Option h.CniResult → h.State → Option h.CniResult → Type 0
    AllAdded [] i annot result s last = result ≡ last
    AllAdded (p ∷ ps) i annot result s last =
        let got = add_network h (interface_name i p) p.plugin_name cni s in
        (r : h.CniResult) × (got.0 ≡ ok r)
        × ((t : Text) × (let written =
                update_pod_definition h (interface_name i p) (some r) annot client k8s got.1 in
              (written.0 ≡ ok t) × AllAdded ps (suc i) t (some r) written.1 last))

    added-ok :
        (result last : Option h.CniResult) (o : Option Error) (s : h.State)
        → (added h result o s).0 ≡ ok last
        → (o ≡ none) × (result ≡ last)
    unfolding added pure raise
    added-ok result last none s e = (refl, cc)
    added-ok result last (some x) s e = cc

    -- the rest of the loop after a plugin was called
    after_update :
        (p : PluginInfo) (ps : List PluginInfo) (i : ℕ) (annot : Text) (r last : Option h.CniResult)
        (o : Option Error) (s : h.State)
        → ((t : Text) (q : Option Error) (s' : h.State)
            → (add_networks h cni client k8s ps (suc i) t r q s').0 ≡ ok last
            → (q ≡ none) × AllAdded ps (suc i) t r s' last)
        → let update = update_pod_definition h (interface_name i p) r annot client k8s in
          ((attempt {F = Error} update >>= λ updated.
          add_networks h cni client k8s ps (suc i) (text_or updated annot) r (last_error updated o))
              s).0
            ≡ ok last
          → (o ≡ none)
            × ((t : Text) × (((update s).0 ≡ ok t) × AllAdded ps (suc i) t r (update s).1 last))
    after_update p ps i annot r last o s rest e =
        let update = update_pod_definition h (interface_name i p) r annot client k8s in
        elim (GoResult-cases (update s).0) [
          | inl (t, u) ↦
              (let k = rest t o (update s).1 (rw (attempt-bind_ok update _ s t u) at e) in
                (k.0, (t, (u, k.1))))
          | inr (inl (x, u)) ↦
              (let k =
                  rest annot (some x) (update s).1 (rw (attempt-bind_err update _ s x u) at e) in
                let no = k.0 in cc)
          | inr (inr u) ↦ (let no = rw (attempt-bind_panic update _ s u) at e in cc)
        ]

    -- what the loop does after it called the plugin
    abbrev continue :
        PluginInfo
        → List PluginInfo
        → ℕ
        → Text
        → Option Error
        → Returned Error h.CniResult
        → Cmd h.State Error (Option h.CniResult)
    continue p ps i annot o got = do
      updated ←
          attempt {F = Error}
            (update_pod_definition h (interface_name i p) (result_of got) annot client k8s)
      add_networks h cni client k8s ps (suc i) (text_or updated annot) (result_of got)
          (last_error updated (last_error got o))

    after_add :
        (p : PluginInfo) (ps : List PluginInfo) (i : ℕ) (annot : Text)
        (result last : Option h.CniResult) (o : Option Error) (s : h.State)
        → ((t : Text) (r : Option h.CniResult) (q : Option Error) (s' : h.State)
            → (add_networks h cni client k8s ps (suc i) t r q s').0 ≡ ok last
            → (q ≡ none) × AllAdded ps (suc i) t r s' last)
        → ((attempt {F = Error} (add_network h (interface_name i p) p.plugin_name cni)
              >>= continue p ps i annot o)
            s).0
          ≡ ok last
        → (o ≡ none) × AllAdded (p ∷ ps) i annot result s last
    after_add p ps i annot result last o s rest e =
        let call = add_network h (interface_name i p) p.plugin_name cni in
        elim (GoResult-cases (call s).0) [
          | inl (r, u) ↦
              (let k =
                  after_update p ps i annot (some r) last o (call s).1 (λ t. rest t (some r))
                    (rw (attempt-bind_ok call (continue p ps i annot o) s r u) at e) in
                (k.0, (r, u, k.1)))
          | inr (inl (x, u)) ↦
              (let k =
                  after_update p ps i annot none last (some x) (call s).1 (λ t. rest t none)
                    (rw (attempt-bind_err call (continue p ps i annot o) s x u) at e) in
                let no = k.0 in cc)
          | inr (inr u) ↦
              (let no = rw (attempt-bind_panic call (continue p ps i annot o) s u) at e in cc)
        ]

    add_networks-from :
        (ps : List PluginInfo) (i : ℕ) (annot : Text) (result last : Option h.CniResult)
        (o : Option Error) (s : h.State)
        → (add_networks h cni client k8s ps i annot result o s).0 ≡ ok last
        → (o ≡ none) × AllAdded ps i annot result s last
    unfolding add_networks
    add_networks-from [] i annot result last o s e = added-ok result last o s e
    add_networks-from (p ∷ ps) i annot result last o s e =
        after_add p ps i annot result last o s
          (λ t r q s'. add_networks-from ps (suc i) t r last q s') e

    -- If the loop of `AddPodNetwork` succeeds, every plugin added its network and every update of
    -- the pod's addresses succeeded, each in the state that the one before it left and with the text
    -- that the update before it wrote; and the result is the last plugin's.
    pub add_networks-ok :
        (ps : List PluginInfo) (annot : Text) (last : Option h.CniResult) (s : h.State)
        → (add_networks h cni client k8s ps 0 annot none none s).0 ≡ ok last
        → AllAdded ps 0 annot none s last
    add_networks-ok ps annot last s e = (add_networks-from ps 0 annot none last none s e).1
