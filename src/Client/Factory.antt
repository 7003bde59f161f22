-- ===== src/Client/Factory.antt =====
-- The factory that shares informers
-- (controllers/logicalnetwork-pkg/client/informers/externalversions/factory.go). A reflect.Type is
-- the type's name. The factory's lock makes each call one step, and the goroutines that `Start`
-- starts are listed in the order of their start.
pub mod Calls
pub mod Requested
pub mod Synced
use cni_genie.Base.{
  Text, Bool, true, false, Option, none, some, List, [], ◌∷◌, ◌++◌, GoMap, lookup, insert,
  if◌then◌else◌,
}
use cni_genie.Client.Library.{Library}
use cni_genie.Client.Requests.{Clientset}

-- a missing key of a map of Booleans reads as false
abbrev pub or_false : Option Bool → Bool
or_false none = false
or_false (some b) = b

module _ (lib : Library) where
  open lib use {Duration, ListOptions, Informer, State}

  abbrev pub Tweak : Type 0
  Tweak = Option (ListOptions → ListOptions)

  -- `sharedInformerFactory`
  pub record Factory : Type 0 where
    pub client : Clientset lib
    pub namespace : Text
    pub tweak_list_options : Tweak
    pub default_resync : Duration
    pub custom_resync : GoMap Duration
    pub informers : GoMap Informer
    pub started_informers : GoMap Bool

  abbrev pub SharedInformerOption : Type 0
  SharedInformerOption = Factory → Factory

  abbrev resync_entries : GoMap Duration → GoMap Duration → GoMap Duration
  resync_entries m [] = m
  resync_entries m ((t, d) ∷ config) = resync_entries (insert t d m) config

  -- the configuration in the order of `range`
  unfoldable pub with_custom_resync_config : GoMap Duration → SharedInformerOption
  with_custom_resync_config config f = record f {
    custom_resync = resync_entries f.custom_resync config;
  }

  unfoldable pub with_tweak_list_options : Tweak → SharedInformerOption
  with_tweak_list_options tweak f = record f { tweak_list_options = tweak }

  unfoldable pub with_namespace : Text → SharedInformerOption
  with_namespace ns f = record f { namespace = ns }

  unfoldable pub apply_options : List SharedInformerOption → Factory → Factory
  apply_options [] f = f
  apply_options (opt ∷ options) f = apply_options options (opt f)

  -- v1.NamespaceAll is the empty string
  unfoldable pub new_with_options : Clientset lib → Duration → List SharedInformerOption → Factory
  new_with_options client resync options = apply_options options (record {
    client = client;
    namespace = [];
    tweak_list_options = none;
    default_resync = resync;
    custom_resync = [];
    informers = [];
    started_informers = [];
  })

  -- `NewSharedInformerFactory`
  unfoldable pub new_shared : Clientset lib → Duration → Factory
  new_shared client resync = new_with_options client resync []

  -- `NewFilteredSharedInformerFactory`
  unfoldable pub new_filtered : Clientset lib → Duration → Text → Tweak → Factory
  new_filtered client resync ns tweak =
      new_with_options client resync (with_namespace ns ∷ with_tweak_list_options tweak ∷ [])

  -- The factory, the goroutines `informer.Run` that it has started, and the rest of the program.
  pub record Process : Type 0 where
    pub factory : Factory
    pub runs : List (Text × Informer)
    pub state : State

  unfoldable pub is_started : Text → Factory → Bool
  is_started t f = or_false (lookup t f.started_informers)

  -- one round of the loop of `Start`
  unfoldable pub start_informer : Text → Informer → Process → Process
  start_informer t informer p = if is_started t p.factory then p else record p {
    factory = record p.factory { started_informers = insert t true p.factory.started_informers };
    runs = p.runs ++ (t, informer) ∷ [];
  }

  -- `Start`: `order` has the types in the order in which `range` visits them
  unfoldable pub start : List Text → Process → Process
  start [] p = p
  start (t ∷ order) p = start order (elim (lookup t p.factory.informers) [
    | none ↦ p
    | some informer ↦ start_informer t informer p
  ])

  -- the started ones among the types
  unfoldable pub started : List Text → Factory → GoMap Informer
  started [] f = []
  started (t ∷ ts) f =
      let rest = started ts f in
      elim (lookup t f.informers) [
        | none ↦ rest
        | some informer ↦ if is_started t f then insert t informer rest else rest
      ]

  unfoldable pub sync_each : (Informer → Bool) → List Text → GoMap Informer → GoMap Bool
  sync_each synced [] m = []
  sync_each synced (t ∷ ts) m =
      let rest = sync_each synced ts m in
      elim (lookup t m) [ none ↦ rest | some informer ↦ insert t (synced informer) rest ]

  abbrev resync_period : Factory → Option Duration → Duration
  resync_period f none = f.default_resync
  resync_period f (some d) = d

  -- `InformerFor`, with the type of its object and `newFunc`
  unfoldable pub informer_for :
      Text → (Clientset lib → Duration → State → Informer × State) → Process → Informer × Process
  informer_for t new_func p = elim (lookup t p.factory.informers) [
    | some informer ↦ (informer, p)
    | none ↦
        let f = p.factory in
        let (informer, after) =
          new_func f.client (resync_period f (lookup t f.custom_resync)) p.state in
        (
          informer,
          record p {
            factory = record f { informers = insert t informer f.informers };
            state = after;
          },
        )
  ]

  -- `WaitForCacheSync`, with the orders of its two loops and the answers of
  -- cache.WaitForCacheSync
  unfoldable pub wait_for_cache_sync :
      List Text → List Text → (Informer → Bool) → Factory → GoMap Bool
  wait_for_cache_sync order second synced f = sync_each synced second (started order f)
