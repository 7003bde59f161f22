-- ===== src/Client/Factory/Synced.antt =====
-- What the factory reports of its informers' caches.
use cni_genie.Base.{
  Text, Bool, true, Option, none, some, List, [], ◌∷◌, ◌&&◌, GoMap, lookup, member, lookup-insert,
  ◌≡◌, refl, eq_iff, if◌then◌else◌, arith, Option-cases, inl, inr,
}
use cni_genie.Client.Library.{Library}
use cni_genie.Client.Factory.{Factory, is_started, started, sync_each, wait_for_cache_sync}

module _ (lib : Library) where
  open lib use {Informer}

  abbrev pub synced_of : (Informer → Bool) → Option Informer → Option Bool
  synced_of synced none = none
  synced_of synced (some i) = some (synced i)

  lookup-started :
      (order : List Text) (f : Factory lib) (t : Text)
      → lookup t (started lib order f)
        ≡ (if member t order && is_started lib t f then lookup t f.informers else none)
  unfolding started member lookup
  lookup-started [] f t = refl
  lookup-started (u ∷ order) f t = elim (Option-cases (lookup u f.informers)) [
    | inl e ↦ rw (e, started) (ground (arith, e, eq_iff u t, lookup-started order f t))
    | inr (i, e) ↦
        rw (e, started)
          (ground (
            arith,
            e,
            eq_iff u t,
            lookup-started order f t,
            lookup-insert u t i (started lib order f),
          ))
  ]

  lookup-sync_each :
      (synced : Informer → Bool) (order : List Text) (m : GoMap Informer) (t : Text)
      → lookup t (sync_each lib synced order m)
        ≡ (if member t order then synced_of synced (lookup t m) else none)
  unfolding sync_each member lookup
  lookup-sync_each synced [] m t = refl
  lookup-sync_each synced (u ∷ order) m t = elim (Option-cases (lookup u m)) [
    | inl e ↦ rw (e, sync_each) (ground (arith, e, eq_iff u t, lookup-sync_each synced order m t))
    | inr (i, e) ↦
        rw (e, sync_each)
          (ground (
            arith,
            e,
            eq_iff u t,
            lookup-sync_each synced order m t,
            lookup-insert u t (synced i) (sync_each lib synced order m),
          ))
  ]

  -- Where the loops visit a type, `WaitForCacheSync` reports whether the cache of its informer was
  -- filled if the type is started, and nothing of the type otherwise.
  pub wait_for_cache_sync_lem :
      (order second : List Text) (synced : Informer → Bool) (f : Factory lib) (t : Text)
      → member t order ≡ true
      → member t second ≡ true
      → lookup t (wait_for_cache_sync lib order second synced f)
        ≡ (if is_started lib t f then synced_of synced (lookup t f.informers) else none)
  unfolding wait_for_cache_sync
  wait_for_cache_sync_lem order second synced f t m n =
      ground
        (arith, lookup-sync_each synced second (started lib order f) t, lookup-started order f t)
