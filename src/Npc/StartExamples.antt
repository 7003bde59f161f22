-- ===== src/Npc/StartExamples.antt =====
-- The start of the controller and its shutdown signals at concrete inputs.
use cni_genie.Base.{
  ℕ, ◌≡◌, refl, ◌≤◌, ltb, arith, true, false, panic, member, ◌==◌, List, [], ◌∷◌, Text,
}
use cni_genie.Client.Factory.Calls.{Call, starts, IsNew}
use cni_genie.Client.Factory.{new_shared, new_with_options, apply_options}
use cni_genie.Client.Informers.{logical_network_type}
use cni_genie.Client.Memory.{numbered, fresh}
use cni_genie.Npc.Kernel.{kernel}
use cni_genie.Npc.Start.{Kube, SetUp}
use cni_genie.Npc.Start.Registered.{IsServed, new_npc_controller-IsServed}
use cni_genie.Npc.Signals.{Handler, set_up, notify, received, setup_signal_handler}
use cni_genie.Npc.Signals.Steps.{
  receive, Reachable, starts, comes, takes, taken, signals_needed, Exiting, exit_served,
}

abbrev pub policies : Kube
policies = record {
  State = ℕ;
  Informer = ℕ;
  Lister = ℕ;
  informer = λ s. (s, s);
  lister = λ s. (s, s);
}

abbrev two_factories : SetUp numbered policies kernel
two_factories = record {
  external = fresh;
  kube_factory = 3;
  network_handlers = [];
  policy_handlers = [];
}

fresh-IsNew : IsNew numbered fresh
unfolding new_shared new_with_options apply_options
fresh-IsNew = record { no_informers = refl; none_started = refl; no_runs = refl }

abbrev pub one_type : List Text
one_type = logical_network_type ∷ []

new_npc_controller-IsServed_example :
    IsServed numbered policies kernel two_factories (Call.starts [] ∷ []) one_type
unfolding member ◌==◌
new_npc_controller-IsServed_example =
    new_npc_controller-IsServed numbered policies kernel two_factories (Call.starts [] ∷ [])
      one_type fresh-IsNew refl

-- three signals before the goroutine runs: the third one is dropped
abbrev three : Handler
three = notify (notify (notify set_up))

three-Reachable : Reachable three
three-Reachable = comes (comes (comes starts))

signals_needed_example :
    (taken (received three).stage ≤ (received three).came)
    × ((received three).stop_closed ≡ ltb 0 (taken (received three).stage))
unfolding notify received
signals_needed_example =
    signals_needed (received three) (takes three-Reachable (receive three (omega arith) (λ e. cc)))

exit_served_example : Exiting three
unfolding notify
exit_served_example = exit_served three three-Reachable (omega arith)

-- a second call of `SetupSignalHandler` panics
set_up_twice : setup_signal_handler (setup_signal_handler false).1 ≡ (panic, true)
unfolding setup_signal_handler
set_up_twice = refl
