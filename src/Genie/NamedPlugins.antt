-- ===== src/Genie/NamedPlugins.antt =====
-- The plugins that `GetPluginInfoFromNwAnnot` returns for an annotation.
use cni_genie.Base.{
  Text, ℕ, ◌≡◌, refl, false, Option, none, some, List, [], ◌∷◌, split, Returned, value, error,
  OnValue, Gives, Gives-pure, Gives-bind, Gives-bind_of, Gives-raise, Gives-if, Gives-attempt, ok,
}
use cni_genie.Types.{PluginInfo}
use cni_genie.Genie.Host.{Host, Error}
use cni_genie.Genie.Networks.{
  eth, used, parse_entry, choose, info_of, with_physical, get_plugin_info_from_physical_nw,
  plugin_info, plugin_infos, get_plugin_info_from_nw_annot,
}
use cni_genie.Genie.Interfaces.{choose_lem}

-- The interface of one entry, where the names of `taken` are given out.
abbrev pub FitsEntry : Option Text → Text → List Text → Type 0
FitsEntry (some name) given taken = given ≡ name
FitsEntry none given taken = (used given taken ≡ false) × ((i : ℕ) × (given ≡ eth i))

-- the names given out after an entry
abbrev pub given_out : Option Text → Text → List Text → List Text
given_out (some name) given taken = taken
given_out none given taken = given ∷ taken

-- One plugin for each entry, in their order: with the interface that the entry writes, or else with
-- an `ethN` that no earlier entry was given.
abbrev pub Named : List Text → List PluginInfo → List Text → Type 0
Named [] [] taken = Unit
Named [] (p ∷ ps) taken = ⊥
Named (t ∷ ts) [] taken = ⊥
Named (t ∷ ts) (p ∷ ps) taken =
    FitsEntry (parse_entry t).interface p.if_name taken
    × Named ts ps (given_out (parse_entry t).interface p.if_name taken)

choose-FitsEntry :
    (o : Option Text) (i : ℕ) (taken : List Text) (given : Text)
    → given ≡ (choose o i taken).if_name
    → FitsEntry o given taken × ((choose o i taken).taken ≡ given_out o given taken)
unfolding choose
choose-FitsEntry (some name) i taken given e = (e, refl)
choose-FitsEntry none i taken given e =
    let c = choose_lem i taken in rw e ((c.1, ((choose none i taken).index, c.0)), c.3)

module _ (h : Host) where
  -- the physical network leaves the interface alone
  physical-if_name :
      (name namespace : Text) (client : h.Client) (info : PluginInfo)
      → Gives
          (λ p. p.if_name ≡ info.if_name)
          (get_plugin_info_from_physical_nw h name namespace client info)
  unfolding get_plugin_info_from_physical_nw with_physical
  physical-if_name name namespace client info =
      Gives-bind _ _ λ bytes. Gives-bind _ _ λ p. Gives-pure _ refl

  info_of-if_name :
      (info : PluginInfo) (got : Returned Error PluginInfo)
      → OnValue (λ p. p.if_name ≡ info.if_name) got
      → (info_of info got).if_name ≡ info.if_name
  info_of-if_name info (value p) e = e
  info_of-if_name info (error x) e = refl

  plugin_info-if_name :
      (name namespace : Text) (client : h.Client) (if_name : Text)
      → Gives (λ p. p.if_name ≡ if_name) (plugin_info h name namespace client if_name)
  unfolding plugin_info
  plugin_info-if_name name namespace client if_name = Gives-bind _ _ λ ln.
      Gives-if _ _ _ (Gives-raise _) (
        Gives-bind_of _ _ (Gives-attempt _ (physical-if_name _ _ _ _))
          λ got e. Gives-pure _ (info_of-if_name _ got e))

  plugin_infos-Named :
      (ts : List Text) (namespace : Text) (client : h.Client) (i : ℕ) (taken : List Text)
      → Gives (λ ps. Named ts ps taken) (plugin_infos h ts namespace client i taken)
  unfolding plugin_infos
  plugin_infos-Named [] namespace client i taken = Gives-pure _ tt
  plugin_infos-Named (t ∷ ts) namespace client i taken =
      let o = (parse_entry t).interface in
      let c = choose o i taken in
      Gives-bind_of _ _ (plugin_info-if_name _ namespace client c.if_name) λ p e.
        Gives-bind_of _ _ (plugin_infos-Named ts namespace client c.index c.taken) λ ps n.
          let fits = choose-FitsEntry o i taken p.if_name e in Gives-pure _ (fits.0, rw fits.1 at n)

  -- If no error comes up, the annotation's entries get one plugin each, in their order; one with a
  -- written interface gets that interface, and every other an `ethN` that none of the other entries
  -- without a written interface has.
  pub nw_annot-Named :
      (text namespace : Text) (client : h.Client) (s : h.State) (ps : List PluginInfo)
      → (get_plugin_info_from_nw_annot h text namespace client s).0 ≡ ok ps
      → Named (split text b',') ps []
  unfolding get_plugin_info_from_nw_annot
  nw_annot-Named text namespace client s ps e =
      (plugin_infos-Named (split text b',') namespace client 0 []).holds s ps e
