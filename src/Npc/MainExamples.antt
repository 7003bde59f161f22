-- ===== src/Npc/MainExamples.antt =====
-- The controller's program at a concrete input: numbered informers and the in-memory filter table.
use cni_genie.Base.{true, false, none, some, [], ◌∷◌, ok, err, ◌⊎◌, ◌≡◌, ap, ◌>>=◌, refl}
use cni_genie.Client.Library.{RestConfig}
use cni_genie.Client.Requests.{new_for_config, new_alpha_client, limited}
use cni_genie.Client.Memory.{numbered}
use cni_genie.Npc.Kernel.{kernel}
use cni_genie.Npc.Tests.{controller, start, add_web}
use cni_genie.Npc.StartExamples.{policies}
use cni_genie.Npc.Main.{
  Platform, Program, building_kube_clientset, parse_flags, set_up_signals, or_fatal, new_controller,
  go, run_controller, usage, main,
}
use cni_genie.Npc.Main.Early.{IsRunning, IsBuilding, Same, waiting}
use cni_genie.Npc.Main.Exits.{main_exits}
use cni_genie.Npc.Signals.{setup_signal_handler}
use cni_genie.Npc.Main.HasRun.{HasRun, main-HasRun}
use cni_genie.Npc.Sync.{run}

abbrev empty_config : RestConfig Unit Unit Unit
empty_config = record {
  group_version = none;
  api_path = [];
  serializer = none;
  user_agent = [];
  rate_limiter = none;
  qps = tt;
  burst = 0;
}

-- the defaults of the flags, and no failure
abbrev defaults : Platform numbered policies
defaults = record {
  KubeClient = Unit;
  parse = λ fs args. some fs;
  build_config_from_flags = λ master path s. (ok empty_config, s);
  kube_client_for_config = λ c s. (ok tt, s);
  new_kube_factory = λ c n. n;
  seconds = λ n. n;
}

abbrev booted : Program numbered policies kernel
booted = record { client = 7; world = start; only_one = false; handler = none; goroutines = [] }

served : (main numbered policies kernel defaults [] true (add_web ∷ []) booted).0 ≡ ok tt
unfolding main parse_flags set_up_signals setup_signal_handler or_fatal new_controller go
    run_controller new_for_config new_alpha_client limited run controller ◌>>=◌
served = refl

main-HasRun_example :
    HasRun numbered policies kernel defaults [] true
      (add_web ∷ [])
      booted
      (main numbered policies kernel defaults [] true (add_web ∷ []) booted).1
main-HasRun_example =
    main-HasRun numbered policies kernel defaults [] true (add_web ∷ []) booted
      (main numbered policies kernel defaults [] true (add_web ∷ []) booted).1
      (ap (λ r. (r, (main numbered policies kernel defaults [] true (add_web ∷ []) booted).1))
        served)

-- the clientset for Kubernetes cannot be made
abbrev refusing : Platform numbered policies
refusing = record defaults { kube_client_for_config = λ c s. (err tt, s) }

main_exits_example :
    IsRunning numbered policies kernel (building_kube_clientset tt)
    ⊎ (((building_kube_clientset tt ≡ usage)
          × (main numbered policies kernel refusing [] true (add_web ∷ []) booted
              ≡ (err usage, booted)))
        ⊎ (IsBuilding numbered policies kernel (building_kube_clientset tt)
            × Same numbered policies kernel
                (waiting numbered policies kernel booted)
                (main numbered policies kernel refusing [] true (add_web ∷ []) booted).1))
unfolding main parse_flags set_up_signals setup_signal_handler or_fatal ◌>>=◌
main_exits_example =
    main_exits numbered policies kernel refusing [] true (add_web ∷ []) booted
      (building_kube_clientset tt) refl
