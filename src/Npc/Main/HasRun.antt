-- ===== src/Npc/Main/HasRun.antt =====
-- What the controller's program has done when it returns.
use cni_genie.Base.{
  Text, codes, Bool, true, false, some, List, [], ◌∷◌, ◌++◌, GoMap, lookup, or_empty, ok, err,
  panic, Cmd, ◌>>=◌, ◌>>◌, GoResult, ◌≡◌, refl, ap, sym, ◌∙◌, inl, inr, bind-done, bind-run,
  bind-stop, bind-panic, rethrow, append_assoc,
}
use cni_genie.Client.Library.{Library, RestConfig}
use cni_genie.Client.Requests.{Clientset, new_for_config}
use cni_genie.Npc.World.{World, Error}
use cni_genie.Npc.Chains.{create_base_chain}
use cni_genie.Npc.Start.{Kube, SetUp, new_npc_controller}
use cni_genie.Npc.Sync.{run}
use cni_genie.Npc.Sync.Run.{AllHandled, run-ok, run-Ended}
use cni_genie.Npc.Main.{
  Platform, Failure, usage, building_kubeconfig, building_kube_clientset, building_clientset,
  running, flags, start_kube, start_external, Program, parse_flags, set_up_signals, or_fatal, go, M,
  factories, new_controller, run_controller, main,
}
use cni_genie.Npc.Main.Early.{waiting, set_up_signals_run, parse_flags_run, after_signals}

module _ (lib : Library) (kube : Kube) (w : World) where
  or_fatal-done :
      {A : Type 0} (f : lib.Error → Failure lib.Error) (m : Cmd lib.State lib.Error A)
      (p q : Program lib kube w) (a : A)
      → or_fatal lib kube w f m p ≡ (ok a, q)
      → (s : lib.State) × (m p.client ≡ (ok a, s)) × (record p { client = s } ≡ q)
  unfolding or_fatal
  or_fatal-done {A} f m p q a e = (
    (m p.client).1,
    ap (λ r. (r, (m p.client).1)) (given (m p.client).0 (ap (λ r. r.0) e)),
    ap (λ r. r.1) e,
  )
    where
      given : (r : GoResult lib.Error A) → rethrow f r ≡ ok a → r ≡ ok a
      given (ok b) k = (let same : b ≡ a = cc in ap ok same)
      given (err x) k = cc
      given panic k = cc

  -- From `p` to `q` the base chain was made, with the caches filled, and every key was handled; the
  -- goroutines that were started are the calls of `Start` of the factories that `u` became.
  pub record Ran (u : SetUp lib kube w) (synced : Bool) (keys : List Text)
      (p q : Program lib kube w) : Type 0 where
    pub base : (create_base_chain w p.world).0 ≡ ok tt
    pub filled : synced ≡ true
    pub each : AllHandled w keys (create_base_chain w p.world).1 q.world
    pub handler : q.handler ≡ p.handler
    pub goroutines :
        q.goroutines
        ≡ p.goroutines
          ++ start_kube (new_npc_controller lib kube w u).1.kube_factory
            ∷ start_external (new_npc_controller lib kube w u).1.external
            ∷ []

  run-handled :
      (synced : Bool) (keys : List Text) (s t : w.State)
      → run w synced keys s ≡ (ok tt, t)
      → AllHandled w keys (create_base_chain w s).1 t
  run-handled synced keys s t e =
      let (made, filled) = run-ok w synced keys s (ap (λ r. r.0) e) in
      elim (run-Ended w synced keys s made filled) [
        | inl (v, out, each) ↦ (let same : v ≡ t = ap (λ r. r.1) (sym out ∙ e) in rw (← same) each)
        | inr c ↦ (let bad = ap (λ r. r.0) (sym c.out_is ∙ e) in cc)
      ]

  run_controller-done :
      (synced : Bool) (keys : List Text) (p q : Program lib kube w)
      → run_controller lib kube w synced keys p ≡ (ok tt, q)
      → (t : w.State) × (run w synced keys p.world ≡ (ok tt, t)) × (record p { world = t } ≡ q)
  unfolding run_controller
  run_controller-done synced keys p q e =
      let out = run w synced keys p.world in
      (out.1, ap (λ r. (r, out.1)) (given out.0 (ap (λ r. r.0) e)), ap (λ r. r.1) e)
    where
      given :
          (r : GoResult Error (Unit {0}))
          → ◌≡◌ {A = GoResult (Failure lib.Error) (Unit {0})} (rethrow running r) (ok tt)
          → r ≡ ok tt
      given (ok b) k = refl
      given (err x) k = cc
      given panic k = cc

module _ (lib : Library) (kube : Kube) (w : World) (platform : Platform lib kube) where
  -- what main does once it has its clients
  abbrev after_clients :
      Bool → List Text → platform.KubeClient → Clientset lib → M lib kube w (Unit {0})
  after_clients synced keys kc ec = do
    made ← new_controller lib kube w platform kc ec
    go lib kube w (start_kube made.1.kube_factory)
    go lib kube w (start_external made.1.external)
    run_controller lib kube w synced keys

  abbrev after_kube :
      Bool
      → List Text
      → RestConfig lib.Limiter lib.Codec lib.Float
      → platform.KubeClient
      → M lib kube w (Unit {0})
  after_kube synced keys cfg kc = do
    ec ← or_fatal lib kube w building_clientset (new_for_config lib cfg)
    after_clients synced keys kc ec

  abbrev after_config :
      Bool → List Text → RestConfig lib.Limiter lib.Codec lib.Float → M lib kube w (Unit {0})
  after_config synced keys cfg = do
    kc ← or_fatal lib kube w building_kube_clientset (platform.kube_client_for_config cfg)
    after_kube synced keys cfg kc

  after_clients-Ran :
      (synced : Bool) (keys : List Text) (kc : platform.KubeClient) (ec : Clientset lib)
      (p q : Program lib kube w)
      → after_clients synced keys kc ec p ≡ (ok tt, q)
      → Ran lib kube w (factories lib kube w platform kc ec p.client) synced keys p q
  unfolding new_controller go ◌>>=◌
  after_clients-Ran synced keys kc ec p q e =
      let (t, ran, same) = run_controller-done lib kube w synced keys _ q e in
      let (made, filled) = run-ok w synced keys p.world (ap (λ r. r.0) ran) in
      record {
        base = made;
        filled = filled;
        each = rw (← same) (run-handled lib kube w synced keys p.world t ran);
        handler = ap (λ r. r.handler) (sym same);
        goroutines = ap (λ r. r.goroutines) (sym same) ∙ append_assoc p.goroutines _ _;
      }

  -- What main has done at `p` when it returns, in `q`.
  pub record HasRun (args : List Text) (synced : Bool) (keys : List Text) (p q : Program lib kube w)
      : Type 0 where
    pub values : GoMap Text
    pub config : RestConfig lib.Limiter lib.Codec lib.Float
    pub kube_client : platform.KubeClient
    pub ext_client : Clientset lib
    pub configured : lib.State
    pub connected : lib.State
    pub ready : lib.State
    pub parsed : platform.parse flags args ≡ some values
    pub first : p.only_one ≡ false
    pub configures :
        platform.build_config_from_flags
          (or_empty (lookup (codes "master") values))
          (or_empty (lookup (codes "kubeconfig") values))
          p.client
        ≡ (ok config, configured)
    pub connects : platform.kube_client_for_config config configured ≡ (ok kube_client, connected)
    pub extends : new_for_config lib config connected ≡ (ok ext_client, ready)
    pub ran :
        Ran lib kube w
          (factories lib kube w platform kube_client ext_client ready)
          synced
          keys
          (waiting lib kube w p)
          q

  after_signals-HasRun :
      (args : List Text) (synced : Bool) (keys : List Text) (values : GoMap Text)
      (p q : Program lib kube w)
      → platform.parse flags args ≡ some values
      → p.only_one ≡ false
      → after_signals lib kube w platform synced keys values (waiting lib kube w p) ≡ (ok tt, q)
      → HasRun args synced keys p q
  after_signals-HasRun args synced keys values p q parsed first e =
      let p1 = waiting lib kube w p in
      let build =
        platform.build_config_from_flags (or_empty (lookup (codes "master") values))
          (or_empty (lookup (codes "kubeconfig") values)) in
      let (cfg, p2, e2, k2) =
        bind-done (or_fatal lib kube w building_kubeconfig build) (after_config synced keys) p1 q tt
          e in
      let (s2, c2, same2) = or_fatal-done lib kube w building_kubeconfig build p1 p2 cfg e2 in
      let connect = platform.kube_client_for_config cfg in
      let (kc, p3, e3, k3) =
        bind-done (or_fatal lib kube w building_kube_clientset connect) (after_kube synced keys cfg)
          (record p1 { client = s2 }) q tt (ap (after_config synced keys cfg) same2 ∙ k2) in
      let (s3, c3, same3) =
        or_fatal-done lib kube w building_kube_clientset connect (record p1 { client = s2 }) p3 kc
          e3 in
      let extend = new_for_config lib cfg in
      let (ec, p4, e4, k4) =
        bind-done (or_fatal lib kube w building_clientset extend) (after_clients synced keys kc)
          (record p1 { client = s3 }) q tt (ap (after_kube synced keys cfg kc) same3 ∙ k3) in
      let (s4, c4, same4) =
        or_fatal-done lib kube w building_clientset extend (record p1 { client = s3 }) p4 ec e4 in
      let last =
        after_clients-Ran synced keys kc ec (record p1 { client = s4 }) q
          (ap (after_clients synced keys kc ec) same4 ∙ k4) in
      record {
        values = values;
        config = cfg;
        kube_client = kc;
        ext_client = ec;
        configured = s2;
        connected = s3;
        ready = s4;
        parsed = parsed;
        first = first;
        configures = c2;
        connects = c3;
        extends = c4;
        ran = record {
          base = last.base;
          filled = last.filled;
          each = last.each;
          handler = last.handler;
          goroutines = last.goroutines;
        };
      }

  pub main-HasRun :
      (args : List Text) (synced : Bool) (keys : List Text) (p q : Program lib kube w)
      → main lib kube w platform args synced keys p ≡ (ok tt, q)
      → HasRun args synced keys p q
  unfolding main
  main-HasRun args synced keys p q e =
      let parse = parse_flags lib kube w platform args in
      let signals = set_up_signals lib kube w in
      let rest = λ (values : GoMap Text). after_signals lib kube w platform synced keys values in
      elim (parse_flags_run lib kube w platform args p) [
        | inr k ↦
            (let run = bind-stop parse (λ values. signals >> rest values) p p usage k in
              let bad = ap (λ r. r.0) (sym run ∙ e) in cc)
        | inl (values, parsed, k) ↦
            (let run = bind-run parse (λ values. signals >> rest values) p p values k in
              elim (set_up_signals_run lib kube w p) [
                | inl (first, set) ↦ after_signals-HasRun args synced keys values p q parsed first (
                    sym (run ∙ bind-run signals (λ _. rest values) p (waiting lib kube w p) tt set)
                    ∙ e)
                | inr crash ↦
                    (let stop = bind-panic signals (λ _. rest values) p crash in
                      let bad = ap (λ r. r.0) (sym (run ∙ stop) ∙ e) in cc)
              ])
      ]
