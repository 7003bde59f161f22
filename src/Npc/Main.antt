-- ===== src/Npc/Main.antt =====
-- The controller's program (controllers/network-policy-controller/main.go). What it calls of the
-- libraries acts on the client's state, and the controller's run on the world.
pub mod Early
pub mod Exits
pub mod HasRun
use cni_genie.Base.{
  Text, codes, ℕ, Bool, Option, none, some, List, [], ◌∷◌, ◌++◌, GoMap, lookup, or_empty, GoResult,
  ok, err, panic, rethrow, Cmd, pure, raise, lift, ◌>>=◌, ◌>>◌,
}
use cni_genie.Client.Library.{Library, RestConfig}
use cni_genie.Client.Requests.{Clientset, new_for_config}
use cni_genie.Client.Factory.{Process, new_shared}
use cni_genie.Npc.World.{World, Error}
use cni_genie.Npc.Start.{Kube, SetUp, Controller, new_npc_controller}
use cni_genie.Npc.Signals.{Handler, setup_signal_handler}
use cni_genie.Npc.Sync.{run}

-- What main calls of package flag, k8s.io/client-go and package time.
pub record Platform (lib : Library) (kube : Kube) : Type 1 where
  pub KubeClient : Type 0
  -- flag.Parse: the flags with their defaults, then their values; `none` where it exits
  pub parse : GoMap Text → List Text → Option (GoMap Text)
  -- clientcmd.BuildConfigFromFlags: the master's URL, the file's path
  pub build_config_from_flags :
      Text → Text → Cmd lib.State lib.Error (RestConfig lib.Limiter lib.Codec lib.Float)
  -- kubernetes.NewForConfig
  pub kube_client_for_config :
      RestConfig lib.Limiter lib.Codec lib.Float → Cmd lib.State lib.Error KubeClient
  -- kubeinformers.NewSharedInformerFactory
  pub new_kube_factory : KubeClient → lib.Duration → kube.State
  pub seconds : ℕ → lib.Duration

-- How main exits early: by flag.Parse or by glog.Fatalf.
pub data Failure (E : Type 0) : Type 0 where
  usage : Failure E
  building_kubeconfig : E → Failure E
  building_kube_clientset : E → Failure E
  building_clientset : E → Failure E
  running : Error → Failure E

-- The flags of `init`, with the defaults.
abbrev pub flags : GoMap Text
flags = (codes "kubeconfig", []) ∷ (codes "master", []) ∷ []

module _ (lib : Library) (kube : Kube) (w : World) where
  -- the goroutines: SetupSignalHandler's, which waits for signals, and main's two, each with the
  -- factory that it calls `Start` of
  pub data Goroutine : Type 0 where
    wait_signals : Goroutine
    start_kube : kube.State → Goroutine
    start_external : Process lib → Goroutine

  -- the program: the client's state, the world, whether `onlyOneSignalHandler` is closed, the handler of
  -- signals, and the goroutines that were started
  pub record Program : Type 0 where
    pub client : lib.State
    pub world : w.State
    pub only_one : Bool
    pub handler : Option Handler
    pub goroutines : List Goroutine

  abbrev pub M : Type 0 → Type 0
  M A = Cmd Program (Failure lib.Error) A

  abbrev pub kept_handler : GoResult (Unit {0}) Handler → Option Handler → Option Handler
  kept_handler (ok h) old = some h
  kept_handler _ old = old

  abbrev pub with_waiting : GoResult (Unit {0}) Handler → List Goroutine → List Goroutine
  with_waiting (ok h) started = started ++ wait_signals ∷ []
  with_waiting _ started = started

  abbrev pub unit_of : GoResult (Unit {0}) Handler → GoResult (Failure lib.Error) (Unit {0})
  unit_of (ok h) = ok tt
  unit_of _ = panic

  unfoldable pub set_up_signals : M (Unit {0})
  set_up_signals p =
      let (r, closed) = setup_signal_handler p.only_one in
      (
        unit_of r,
        record p {
          only_one = closed;
          handler = kept_handler r p.handler;
          goroutines = with_waiting r p.goroutines;
        },
      )

  -- a call that acts on the client's state, and glog.Fatalf on its error
  unfoldable pub or_fatal :
      {A : Type 0} → (lib.Error → Failure lib.Error) → Cmd lib.State lib.Error A → M A
  or_fatal f m p = let (r, after) = m p.client in (rethrow f r, record p { client = after })

  unfoldable pub go : Goroutine → M (Unit {0})
  go g p = (ok tt, record p { goroutines = p.goroutines ++ g ∷ [] })

  unfoldable pub run_controller : Bool → List Text → M (Unit {0})
  run_controller synced keys p =
      let (r, after) = run w synced keys p.world in (rethrow running r, record p { world = after })

module _ (lib : Library) (kube : Kube) (w : World) (platform : Platform lib kube) where
  unfoldable pub parse_flags : List Text → M lib kube w (GoMap Text)
  parse_flags args p = elim (platform.parse flags args) [
    | none ↦ (err usage, p)
    | some values ↦ (ok values, p)
  ]

  -- the two factories, before the controller asks them for informers
  abbrev pub factories : platform.KubeClient → Clientset lib → lib.State → SetUp lib kube w
  factories kube_client ext_client s = record {
    external = record {
      factory = new_shared lib ext_client (platform.seconds 30);
      runs = [];
      state = s;
    };
    kube_factory = platform.new_kube_factory kube_client (platform.seconds 30);
    network_handlers = [];
    policy_handlers = [];
  }

  unfoldable pub new_controller :
      platform.KubeClient → Clientset lib → M lib kube w (Controller lib kube w × SetUp lib kube w)
  new_controller kube_client ext_client p =
      let (c, u) = new_npc_controller lib kube w (factories kube_client ext_client p.client) in
      (ok (c, u), record p { client = u.external.state })

  -- `main`, with the program's arguments, the answer of WaitForCacheSync and the queue's keys
  unfoldable pub main : List Text → Bool → List Text → M lib kube w (Unit {0})
  main args synced keys = do
    values ← parse_flags args
    set_up_signals lib kube w
    cfg ← or_fatal lib kube w building_kubeconfig (
        platform.build_config_from_flags (or_empty (lookup (codes "master") values))
          (or_empty (lookup (codes "kubeconfig") values)))
    kube_client ← or_fatal lib kube w building_kube_clientset (platform.kube_client_for_config cfg)
    ext_client ← or_fatal lib kube w building_clientset (new_for_config lib cfg)
    made ← new_controller kube_client ext_client
    go lib kube w (start_kube made.1.kube_factory)
    go lib kube w (start_external made.1.external)
    run_controller lib kube w synced keys
