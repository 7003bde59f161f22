-- ===== src/Npc/Main/Early.antt =====
-- The parts of the controller's program, and what those before the controller's run leave.
use cni_genie.Base.{
  Text, codes, Bool, true, false, some, List, [], ◌∷◌, ◌++◌, GoMap, lookup, or_empty, ok, err,
  panic, Cmd, ◌>>=◌, ◌>>◌, GoResult, GoResult-cases, ◌≡◌, refl, ap, sym, ◌∙◌, ◌⊎◌, inl, inr,
  bind-ok, bind-err, bind-panic, Option-cases, Bool-cases, rethrow,
}
use cni_genie.Client.Library.{Library}
use cni_genie.Client.Requests.{Clientset, new_for_config}
use cni_genie.Npc.World.{World, Error}
use cni_genie.Npc.Start.{Kube, SetUp, Controller}
use cni_genie.Npc.Signals.{set_up, setup_signal_handler}
use cni_genie.Npc.Sync.{run}
use cni_genie.Npc.Main.{
  Platform, Failure, usage, building_kubeconfig, building_kube_clientset, building_clientset,
  running, flags, Goroutine, wait_signals, start_kube, start_external, Program, parse_flags,
  set_up_signals, or_fatal, go, M, new_controller, run_controller,
}

module _ (lib : Library) (kube : Kube) (w : World) where
  -- the world and the goroutines are as they were
  pub record Same (p q : Program lib kube w) : Type 0 where
    pub world : q.world ≡ p.world
    pub goroutines : q.goroutines ≡ p.goroutines

  Same-trans : (p q r : Program lib kube w) → Same p q → Same q r → Same p r
  Same-trans p q r a b = record {
    world = b.world ∙ a.world;
    goroutines = b.goroutines ∙ a.goroutines;
  }

  -- the run's error is one of the controller's `Run`
  abbrev pub IsRunning : Failure lib.Error → Type 0
  IsRunning e = (x : Error) × (e ≡ running x)

  -- the run's error is one of the configuration or of a client
  abbrev pub IsBuilding : Failure lib.Error → Type 0
  IsBuilding e =
      ((x : lib.Error) × (e ≡ building_kubeconfig x))
      ⊎ (((x : lib.Error) × (e ≡ building_kube_clientset x))
          ⊎ ((x : lib.Error) × (e ≡ building_clientset x)))

  abbrev Quiet : {A : Type 0} → M lib kube w A → Type 0
  Quiet m = (p : Program lib kube w) → Same p (m p).1

  -- an error that is not one of `Run` leaves everything as it was
  abbrev pub Early : {A : Type 0} → M lib kube w A → Type 0
  Early m =
      (p : Program lib kube w) (e : Failure lib.Error)
      → (m p).0 ≡ err e
      → IsRunning e ⊎ (IsBuilding e × Same p (m p).1)

  abbrev FailsBuilding : {A : Type 0} → M lib kube w A → Type 0
  FailsBuilding m =
      (p : Program lib kube w) (e : Failure lib.Error) → (m p).0 ≡ err e → IsBuilding e

  pub Failure-inj :
      {A : Type 0} {x y : Failure lib.Error}
      → ◌≡◌ {A = GoResult (Failure lib.Error) A} (err x) (err y)
      → x ≡ y
  Failure-inj k = cc

  abbrev Late : {A : Type 0} → M lib kube w A → Type 0
  Late m = (p : Program lib kube w) (e : Failure lib.Error) → (m p).0 ≡ err e → IsRunning e

  Early-bind :
      {A B : Type 0} (m : M lib kube w A) (f : A → M lib kube w B)
      → Quiet m
      → FailsBuilding m
      → ((a : A) → Early (f a))
      → Early (m >>= f)
  Early-bind m f quiet fails early p e h = elim (GoResult-cases (m p).0) [
    | inl (a, r) ↦
        (let run = bind-ok m f p a r in
          let h' : (f a (m p).1).0 ≡ err e = rw run at h in
          elim (early a (m p).1 e h') [
            | inl x ↦ inl x
            | inr (b, s) ↦ inr (b, rw run (Same-trans p (m p).1 (f a (m p).1).1 (quiet p) s))
          ])
    | inr (inl (x, r)) ↦
        (let stop = bind-err m f p x r in
          let same : x ≡ e = Failure-inj (sym (ap (λ q. q.0) stop) ∙ h) in
          inr (fails p e (r ∙ ap err same), rw stop (quiet p)))
    | inr (inr r) ↦ (let bad = rw (bind-panic m f p r) at h in cc)
  ]

  Late-bind :
      {A B : Type 0} (m : M lib kube w A) (f : A → M lib kube w B)
      → ((p : Program lib kube w) → (a : A) × ((m p).0 ≡ ok a))
      → ((a : A) → Late (f a))
      → Late (m >>= f)
  Late-bind m f done late p e h =
      let (a, r) = done p in late a (m p).1 e (rw (bind-ok m f p a r) at h)

  or_fatal-Quiet :
      {A : Type 0} (f : lib.Error → Failure lib.Error) (m : Cmd lib.State lib.Error A)
      → Quiet (or_fatal lib kube w f m)
  unfolding or_fatal
  or_fatal-Quiet f m p = record { world = refl; goroutines = refl }

  or_fatal-fails :
      {A : Type 0} (f : lib.Error → Failure lib.Error) (m : Cmd lib.State lib.Error A)
      (p : Program lib kube w) (e : Failure lib.Error)
      → (or_fatal lib kube w f m p).0 ≡ err e
      → (x : lib.Error) × (e ≡ f x)
  unfolding or_fatal
  or_fatal-fails f m p e h = failed (m p.client).0 h
    where
      failed :
          {A : Type 0} (r : GoResult lib.Error A)
          → rethrow f r ≡ err e
          → (x : lib.Error) × (e ≡ f x)
      failed (ok a) k = cc
      failed (err x) k = (x, sym (Failure-inj k))
      failed panic k = cc

  -- the program once the handler of signals is set up
  abbrev pub waiting : Program lib kube w → Program lib kube w
  waiting p = record p {
    only_one = true;
    handler = some set_up;
    goroutines = p.goroutines ++ wait_signals ∷ [];
  }

  -- the handler of signals is set up once
  pub set_up_signals_run :
      (p : Program lib kube w)
      → ((p.only_one ≡ false) × (set_up_signals lib kube w p ≡ (ok tt, waiting p)))
        ⊎ ((set_up_signals lib kube w p).0 ≡ panic)
  unfolding set_up_signals setup_signal_handler
  set_up_signals_run p = elim (Bool-cases p.only_one) [
    | inl e ↦ inr (rw e refl)
    | inr e ↦ inl (e, rw e refl)
  ]

  rethrown :
      (r : GoResult Error (Unit {0})) (e : Failure lib.Error)
      → rethrow running r ≡ err e
      → IsRunning e
  rethrown (ok a) e h = cc
  rethrown (err x) e h = (x, cc)
  rethrown panic e h = cc

  go-done :
      (g : Goroutine lib kube w) (p : Program lib kube w)
      → (a : Unit {0}) × ((go lib kube w g p).0 ≡ ok a)
  unfolding go
  go-done g p = (tt, refl)

  run_controller-Late :
      (synced : Bool) (keys : List Text) → Late (run_controller lib kube w synced keys)
  unfolding run_controller
  run_controller-Late synced keys p e h = rethrown (run w synced keys p.world).0 e h

module _ (lib : Library) (kube : Kube) (w : World) (platform : Platform lib kube) where
  pub parse_flags_run :
      (args : List Text) (p : Program lib kube w)
      → ((values : GoMap Text) × (platform.parse flags args ≡ some values)
          × (parse_flags lib kube w platform args p ≡ (ok values, p)))
        ⊎ (parse_flags lib kube w platform args p ≡ (err usage, p))
  unfolding parse_flags
  parse_flags_run args p = elim (Option-cases (platform.parse flags args)) [
    | inl e ↦ inr (rw (e, parse_flags) refl)
    | inr (values, e) ↦ inl (values, e, rw (e, parse_flags) refl)
  ]

  new_controller-done :
      (kc : platform.KubeClient) (ec : Clientset lib) (p : Program lib kube w)
      → (c : Controller lib kube w × SetUp lib kube w) × ((new_controller lib kube w platform kc ec
            p).0
          ≡ ok c)
  unfolding new_controller
  new_controller-done kc ec p = (_, refl)

  -- what main does once the handler of signals is set up
  abbrev pub after_signals : Bool → List Text → GoMap Text → M lib kube w (Unit {0})
  after_signals synced keys values = do
    cfg ← or_fatal lib kube w building_kubeconfig (
        platform.build_config_from_flags (or_empty (lookup (codes "master") values))
          (or_empty (lookup (codes "kubeconfig") values)))
    kube_client ← or_fatal lib kube w building_kube_clientset (platform.kube_client_for_config cfg)
    ext_client ← or_fatal lib kube w building_clientset (new_for_config lib cfg)
    made ← new_controller lib kube w platform kube_client ext_client
    go lib kube w (start_kube made.1.kube_factory)
    go lib kube w (start_external made.1.external)
    run_controller lib kube w synced keys

  pub after_signals-Early :
      (synced : Bool) (keys : List Text) (values : GoMap Text)
      → Early lib kube w (after_signals synced keys values)
  after_signals-Early synced keys values =
      Early-bind lib kube w (or_fatal lib kube w building_kubeconfig _) _
        (or_fatal-Quiet lib kube w building_kubeconfig _)
        (λ p e h. inl (or_fatal-fails lib kube w building_kubeconfig _ p e h))
        λ cfg.
          Early-bind lib kube w (or_fatal lib kube w building_kube_clientset _) _
            (or_fatal-Quiet lib kube w building_kube_clientset _)
            (λ p e h. inr (inl (or_fatal-fails lib kube w building_kube_clientset _ p e h)))
            λ kc.
              Early-bind lib kube w (or_fatal lib kube w building_clientset _) _
                (or_fatal-Quiet lib kube w building_clientset _)
                (λ p e h. inr (inr (or_fatal-fails lib kube w building_clientset _ p e h)))
                λ ec p e h. inl (
                  Late-bind lib kube w (new_controller lib kube w platform kc ec) _
                    (new_controller-done kc ec)
                    (λ made.
                      Late-bind lib kube w (go lib kube w (start_kube made.1.kube_factory)) _
                        (go-done lib kube w (start_kube made.1.kube_factory))
                        (λ _.
                          Late-bind lib kube w (go lib kube w (start_external made.1.external)) _
                            (go-done lib kube w (start_external made.1.external))
                            (λ _. run_controller-Late lib kube w synced keys)))
                    p e h)
