-- ===== src/Genie/Released.antt =====
-- When `DeletePodNetwork` succeeds.
use cni_genie.Base.{
  ℕ, suc, ◌≡◌, ◌↔◌, refl, ap, sym, ◌∙◌, attempt-run, Option, none, some, List, [], ◌∷◌, ok, pure,
  raise, Returned, inl, inr, GoResult-cases, attempt-bind_ok, attempt-bind_err, attempt-bind_panic,
}
use cni_genie.Types.{CniArgs, PluginInfo}
use cni_genie.Genie.Host.{Host, Error}
use cni_genie.Genie.Conf.{delete_network}
use cni_genie.Genie.PluginCalls.{Released, delete_network-Released}
use cni_genie.Genie.Pod.{interface_name, deleted, delete_networks, last_error}

module _ (h : Host) (cni : CniArgs) where
  -- For each plugin in turn, its calls were made without an error, or none of its .conf files is valid.
  abbrev pub AllReleased : List PluginInfo → ℕ → h.State → h.State → Type 0
  AllReleased [] i s u = s ≡ u
  AllReleased (p ∷ ps) i s u =
      (t : h.State) × Released h cni (interface_name i p) p.plugin_name s t
      × AllReleased ps (suc i) t u

  deleted-done :
      (o : Option Error) (s u : h.State) → deleted h o s ≡ (ok tt, u) ↔ ((o ≡ none) × (s ≡ u))
  unfolding deleted pure raise
  deleted-done none s u = ((λ e. (refl, ap (λ r. r.1) e)), (λ k. ap (λ t. (ok tt, t)) k.1))
  deleted-done (some x) s u = ((λ e. let bad = ap (λ r. r.0) e in cc), (λ k. let bad = k.0 in cc))

  delete_networks-from :
      (ps : List PluginInfo) (i : ℕ) (o : Option Error) (s u : h.State)
      → delete_networks h cni ps i o s ≡ (ok tt, u) ↔ ((o ≡ none) × AllReleased ps i s u)
  unfolding delete_networks
  delete_networks-from [] i o s u = deleted-done o s u
  delete_networks-from (p ∷ ps) i o s u =
      let gone = delete_network h (interface_name i p) p.plugin_name cni in
      let done = delete_network-Released h cni (interface_name i p) p.plugin_name in
      let next =
        λ (g : Returned Error (Unit {0})). delete_networks h cni ps (suc i) (last_error g o) in
      (
        λ e. elim (GoResult-cases (gone s).0) [
          | inl (v, k) ↦
              (let rest =
                  (delete_networks-from ps (suc i) o (gone s).1 u).0
                    (sym (attempt-bind_ok gone next s tt k) ∙ e) in
                (rest.0, ((gone s).1, (done s (gone s).1).0 (ap (λ r. (r, (gone s).1)) k), rest.1)))
          | inr (inl (x, k)) ↦
              (let rest =
                  (delete_networks-from ps (suc i) (some x) (gone s).1 u).0
                    (sym (attempt-bind_err gone next s x k) ∙ e) in
                let bad = rest.0 in cc)
          | inr (inr k) ↦ (let bad = sym (attempt-bind_panic gone next s k) ∙ ap (λ r. r.0) e in cc)
        ],
        λ (clean, (t, released, rest)).
            attempt-run gone next s t tt ((done s t).1 released)
            ∙ (delete_networks-from ps (suc i) o t u).1 (clean, rest),
      )

  -- The loop of `DeletePodNetwork` succeeds exactly if for each plugin in turn, in the state that the
  -- one before it left, there are .conf files and one of two things was done: the first valid one of
  -- the plugin's was found, and the plugins of that configuration were called for the interface to
  -- delete the network, without an error; or none of the plugin's files is valid, and no plugin was
  -- called.
  pub delete_networks-done :
      (ps : List PluginInfo) (s u : h.State)
      → delete_networks h cni ps 0 none s ≡ (ok tt, u) ↔ AllReleased ps 0 s u
  delete_networks-done ps s u =
      let from = delete_networks-from ps 0 none s u in
      ((λ k. (from.0 k).1), (λ k. from.1 (refl, k)))
