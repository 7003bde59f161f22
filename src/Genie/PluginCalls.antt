-- ===== src/Genie/PluginCalls.antt =====
-- What `addNetwork`, `deleteNetwork` and `UpdatePodDefinition` have called when they return no error.
use cni_genie.Base.{
  Text, codes, ◌≡◌, ◌↔◌, ◌⊎◌, inl, inr, refl, ap, ◌∙◌, Option, none, some, List, [], ◌∷◌, ok, pure,
  raise, wrap, wrap-run, bind-run, bind-done, wrap-done, sort_strings,
}
use cni_genie.Types.{CniArgs}
use cni_genie.Genie.Host.{Host, RuntimeConf, call, at, runtime_conf_site}
use cni_genie.Genie.Args.{runtime_conf}
use cni_genie.Genie.Conf.{
  default_net_dir, find_conf, conf_or_default, add_network, release, release_from, delete_network,
}

module _ (h : Host) (cni : CniArgs) (intf name : Text) where
  open h use {State, ConfigList, CniResult}

  -- The directory has .conf files, and the search among them, in sorted order, ends with `o`.
  pub record Searched (s : State) (o : Option ConfigList) (u : State) : Type 0 where
    pub file : Text
    pub files : List Text
    pub listed : State
    pub lists : h.conf_files default_net_dir (codes ".conf" ∷ []) s ≡ (ok (file ∷ files), listed)
    pub finds : find_conf h name (sort_strings (file ∷ files)) listed ≡ (ok o, u)

  -- the plugins of the configuration were called for the interface, and returned no error
  pub record CalledDel (conf : ConfigList) (u t : State) : Type 0 where
    pub conf_of_call : RuntimeConf
    pub called_in : State
    pub makes : runtime_conf h cni intf u ≡ (ok conf_of_call, called_in)
    pub deletes : h.del_network_list conf conf_of_call called_in ≡ (ok tt, t)

  -- From `s` to `t` one of two things was done. No .conf file of the plugin is valid, and no plugin was
  -- called; or the first valid one was found, and the plugins in it were called.
  abbrev pub Released : State → State → Type 0
  Released s t =
      Searched s none t
      ⊎ ((conf : ConfigList) × (u : State) × Searched s (some conf) u × CalledDel conf u t)

  release-called :
      (o : Option ConfigList) (s u t : State)
      → Searched s o u
      → release h intf cni o u ≡ (ok tt, t)
      → Released s t
  unfolding release pure
  release-called none s u t found e =
      (let same : u ≡ t = ap (λ r. r.1) e in inl (rw (← same) found))
  release-called (some conf) s u t found e =
      let (rt, v, makes, rest) =
        bind-done (wrap (at runtime_conf_site) (runtime_conf h cni intf)) _ u t tt e in
      inr (
        conf,
        u,
        found,
        record {
          conf_of_call = rt;
          called_in = v;
          makes = wrap-done (at runtime_conf_site) (runtime_conf h cni intf) u v rt makes;
          deletes = wrap-done call (h.del_network_list conf rt) v t tt rest;
        },
      )

  release_from-called :
      (files : List Text) (s v t : State)
      → h.conf_files default_net_dir (codes ".conf" ∷ []) s ≡ (ok files, v)
      → release_from h intf name cni files v ≡ (ok tt, t)
      → Released s t
  unfolding release_from raise
  release_from-called [] s v t lists e = (let bad = ap (λ r. r.0) e in cc)
  release_from-called (f ∷ fs) s v t lists e =
      let (o, u, finds, rest) = bind-done (find_conf h name (sort_strings (f ∷ fs))) _ v t tt e in
      release-called o s u t
        (record { file = f; files = fs; listed = v; lists = lists; finds = finds }) rest

  Searched-run :
      (o : Option ConfigList) (s u t : State)
      → Searched s o u
      → release h intf cni o u ≡ (ok tt, t)
      → delete_network h intf name cni s ≡ (ok tt, t)
  unfolding delete_network release_from
  Searched-run o s u t found e =
      let list = h.conf_files default_net_dir (codes ".conf" ∷ []) in
      let files = found.file ∷ found.files in
      bind-run (wrap call list) (release_from h intf name cni) s found.listed files
        (wrap-run call list s found.listed files found.lists)
      ∙ bind-run (find_conf h name (sort_strings files)) _ found.listed u o found.finds
      ∙ e

  Released-run : (s t : State) → Released s t → delete_network h intf name cni s ≡ (ok tt, t)
  unfolding release pure
  Released-run s t (inl found) = Searched-run none s t t found refl
  Released-run s t (inr (conf, u, found, c)) = Searched-run (some conf) s u t found (
      bind-run (wrap (at runtime_conf_site) (runtime_conf h cni intf)) _ u c.called_in
        c.conf_of_call (wrap-run _ (runtime_conf h cni intf) u c.called_in c.conf_of_call c.makes)
      ∙ wrap-run call (h.del_network_list conf c.conf_of_call) c.called_in t tt c.deletes)

  -- `deleteNetwork` returns no error exactly if it has done this.
  pub delete_network-Released :
      (s t : State) → (delete_network h intf name cni s ≡ (ok tt, t)) ↔ Released s t
  unfolding delete_network
  delete_network-Released s t =
      let list = h.conf_files default_net_dir (codes ".conf" ∷ []) in
      (
        λ e.
            let (files, v, lists, rest) = bind-done (wrap call list) _ s t tt e in
            release_from-called files s v t (wrap-done call list s v files lists) rest,
        Released-run s t,
      )

  -- From `s` to `t` a configuration was found or made, and its plugins were called for the interface;
  -- `r` is their result.
  pub record Added (s : State) (r : CniResult) (t : State) : Type 0 where
    pub files : List Text
    pub found : Option ConfigList
    pub conf : ConfigList
    pub conf_of_call : RuntimeConf
    pub listed : State
    pub found_in : State
    pub made_in : State
    pub called_in : State
    pub lists :
        h.conf_files default_net_dir (codes ".conf" ∷ codes ".conflist" ∷ []) s ≡ (ok files, listed)
    pub finds : find_conf h name (sort_strings files) listed ≡ (ok found, found_in)
    pub gives : conf_or_default h name found found_in ≡ (ok conf, made_in)
    pub makes : runtime_conf h cni intf made_in ≡ (ok conf_of_call, called_in)
    pub adds : h.add_network_list conf conf_of_call called_in ≡ (ok r, t)

  pub add_network-Added :
      (s t : State) (r : CniResult) → add_network h intf name cni s ≡ (ok r, t) → Added s r t
  unfolding add_network
  add_network-Added s t r e =
      let list = h.conf_files default_net_dir (codes ".conf" ∷ codes ".conflist" ∷ []) in
      let (files, s1, e1, rest1) = bind-done (wrap call list) _ s t r e in
      let (o, s2, e2, rest2) = bind-done (find_conf h name (sort_strings files)) _ s1 t r rest1 in
      let (conf, s3, e3, rest3) = bind-done (conf_or_default h name o) _ s2 t r rest2 in
      let (rt, s4, e4, rest4) =
        bind-done (wrap (at runtime_conf_site) (runtime_conf h cni intf)) _ s3 t r rest3 in
      record {
        files = files;
        found = o;
        conf = conf;
        conf_of_call = rt;
        listed = s1;
        found_in = s2;
        made_in = s3;
        called_in = s4;
        lists = wrap-done call list s s1 files e1;
        finds = e2;
        gives = e3;
        makes = wrap-done (at runtime_conf_site) (runtime_conf h cni intf) s3 s4 rt e4;
        adds = wrap-done call (h.add_network_list conf rt) s4 t r rest4;
      }
