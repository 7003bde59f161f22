-- ===== src/Npc/Signals.antt =====
-- The handler of shutdown signals (controllers/network-policy-controller/signals/signal.go).
pub mod Steps
use cni_genie.Base.{
  ℕ, zero, suc, ◌+◌, ◌-◌, ◌<◌, ◌≤◌, Bool, true, false, GoResult, ok, panic, ◌≡◌, refl, ◌⊎◌, inl,
  inr, ltb, if◌then◌else◌, arith,
}

-- Where the goroutine stands: at the first `<-c`, at the second one, or after the exit.
pub data Stage : Type 0 where
  first : Stage
  second : Stage
  exited : Stage

-- The channel c as the number of signals in it, the stop channel, and, for the theorems, how many
-- signals have come.
pub record Handler : Type 0 where
  pub buffered : ℕ
  pub stage : Stage
  pub stop_closed : Bool
  pub came : ℕ

abbrev capacity : ℕ
capacity = 2

abbrev pub set_up : Handler
set_up = record { buffered = 0; stage = first; stop_closed = false; came = 0 }

-- `SetupSignalHandler`, with whether `onlyOneSignalHandler` is closed, before and after: to close
-- it again panics
unfoldable pub setup_signal_handler : Bool → GoResult (Unit {0}) Handler × Bool
setup_signal_handler true = (panic, true)
setup_signal_handler false = (ok set_up, true)

-- signal.Notify (os/signal) sends without waiting: a signal that does not fit is dropped
unfoldable pub notify : Handler → Handler
notify h = record h {
  buffered = if ltb h.buffered capacity then suc h.buffered else h.buffered;
  came = suc h.came;
}

-- the goroutine after a receive
unfoldable pub received : Handler → Handler
received h = elim h.stage [
  | first ↦ record h { buffered = h.buffered - 1; stage = second; stop_closed = true }
  | second ↦ record h { buffered = h.buffered - 1; stage = exited }
  | exited ↦ h
]
