-- ===== src/Genie/FoundConf.antt =====
-- The configuration that `addNetwork` and `deleteNetwork` find.
use cni_genie.Base.{
  Text, ◌≡◌, ◌≢◌, refl, Bool-cases, true, inl, inr, Option, none, some, List, [], ◌∷◌, ok, eq_refl,
  arith, Cmd, pure, Returned, value, error, Gives, Gives-pure, Gives-raise, Gives-bind,
  Gives-bind_of, Gives-attempt, OnValue, member,
}
use cni_genie.Genie.Host.{Host, Error}
use cni_genie.Genie.Conf.{serves, has_plugins, parse_cni_conf_from_file, find_conf}

module _ (h : Host) (cni_name : Text) where
  -- The configuration was read from one of the files, whose path holds the plugin's name, and it
  -- has a plugin.
  abbrev pub FromFile : List Text → h.ConfigList → Type 0
  FromFile files l =
      (h.plugin_types l ≢ [])
      × ((file : Text) × (member file files ≡ true)
          × (serves h file cni_name ≡ true)
          × ((s : h.State) × ((parse_cni_conf_from_file h file s).0 ≡ ok l)))

  abbrev IfFound : List Text → Option h.ConfigList → Type 0
  IfFound files none = Unit
  IfFound files (some l) = FromFile files l

  Gives-has_plugins :
      (l : h.ConfigList) (ts : List Text)
      → h.plugin_types l ≡ ts
      → Gives (λ r. h.plugin_types r ≢ []) (has_plugins h l ts)
  unfolding has_plugins
  Gives-has_plugins l [] e = Gives-raise _
  Gives-has_plugins l (t ∷ ts) e = Gives-pure l (λ n. cc)

  Gives-parse : (file : Text) → Gives (λ r. h.plugin_types r ≢ []) (parse_cni_conf_from_file h file)
  unfolding parse_cni_conf_from_file
  Gives-parse file = Gives-bind _ _ λ l. Gives-has_plugins l _ refl

  abbrev Parsed : Text → h.ConfigList → Type 0
  Parsed file l =
      (h.plugin_types l ≢ []) × ((s : h.State) × ((parse_cni_conf_from_file h file s).0 ≡ ok l))

  Gives-Parsed : (file : Text) → Gives (Parsed file) (parse_cni_conf_from_file h file)
  Gives-Parsed file = record { holds = λ s l e. ((Gives-parse file).holds s l e, (s, e)) }

  IfFound-later :
      (file : Text) (files : List Text) (o : Option h.ConfigList)
      → IfFound files o
      → IfFound (file ∷ files) o
  unfolding member
  IfFound-later file files none f = tt
  IfFound-later file files (some l) f = (f.0, (f.1.0, ground (arith, f.1.1), f.1.2, f.1.3))

  weaken :
      (file : Text) (files : List Text) (m : Cmd h.State Error (Option h.ConfigList))
      → Gives (IfFound files) m
      → Gives (IfFound (file ∷ files)) m
  weaken file files m g = record { holds = λ s o e. IfFound-later file files o (g.holds s o e) }

  -- the rest of the loop after a file was read
  found_or :
      (file : Text) (files : List Text) (rest : Cmd h.State Error (Option h.ConfigList))
      (r : Returned Error h.ConfigList)
      → OnValue (Parsed file) r
      → serves h file cni_name ≡ true
      → Gives (IfFound files) rest
      → Gives {E = Error}
          (IfFound (file ∷ files))
          (elim r as (λ x. Cmd h.State Error (Option h.ConfigList)) [
            | value l ↦ pure (some l)
            | error _ ↦ rest
          ])
  unfolding member
  found_or file files rest (value l) p e g =
      Gives-pure _ (p.0, (file, ground (arith, eq_refl file), e, p.1))
  found_or file files rest (error x) p e g = weaken file files rest g

  Gives-find_conf : (files : List Text) → Gives (IfFound files) (find_conf h cni_name files)
  unfolding find_conf
  Gives-find_conf [] = Gives-pure _ tt
  Gives-find_conf (file ∷ files) = elim (Bool-cases (serves h file cni_name)) [
    | inr other ↦ rw other (weaken file files _ (Gives-find_conf files))
    | inl serving ↦ rw serving (
        Gives-bind_of _ _ (Gives-attempt _ (Gives-Parsed file))
          λ r p. found_or file files _ r p serving (Gives-find_conf files))
  ]

  -- If a configuration is found among files, it was read from one of them, whose path holds the
  -- plugin's name, the name is not empty, and the configuration has a plugin, so that the callers'
  -- `Plugins[0]` is there.
  pub find_conf-FromFile :
      (files : List Text) (l : h.ConfigList) (s : h.State)
      → (find_conf h cni_name files s).0 ≡ ok (some l)
      → FromFile files l
  find_conf-FromFile files l s e = (Gives-find_conf files).holds s (some l) e
