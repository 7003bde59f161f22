-- ===== src/Npc/Signals/Steps.antt =====
-- What shutdown signals do, whenever they come and whenever the goroutine runs.
use cni_genie.Base.{ℕ, ◌+◌, ◌<◌, ◌≤◌, Bool, true, false, ◌≡◌, ◌≢◌, refl, ◌⊎◌, inl, inr, ltb, arith}
use cni_genie.Npc.Signals.{Stage, Handler, first, second, exited, set_up, notify, received}

-- One receive of the goroutine, which waits for a signal.
pub data Receive : Handler → Handler → Type 0 where
  receive : (h : Handler) → 0 < h.buffered → h.stage ≢ exited → Receive h (received h)

pub data Receives : Handler → Handler → Type 0 where
  done : {h : Handler} → Receives h h
  more : {h i j : Handler} → Receive h i → Receives i j → Receives h j

-- What happens from the start: signals come and the goroutine receives, in any order.
pub data Reachable : Handler → Type 0 where
  starts : Reachable set_up
  comes : {h : Handler} → Reachable h → Reachable (notify h)
  takes : {h i : Handler} → Reachable h → Receive h i → Reachable i

abbrev pub taken : Stage → ℕ
taken first = 0
taken second = 1
taken exited = 2

abbrev past_first : Stage → Bool
past_first first = false
past_first _ = true

-- The stop channel is closed behind the first receive, and only a third signal can be lost.
record IsSound (h : Handler) : Type 0 where
  closed : h.stop_closed ≡ past_first h.stage
  came_first : taken h.stage + h.buffered ≤ h.came
  none_lost : (h.came ≤ taken h.stage + h.buffered) ⊎ (2 ≤ taken h.stage + h.buffered)

notify-IsSound : (h : Handler) → IsSound h → IsSound (notify h)
unfolding notify
notify-IsSound h s = record {
  closed = s.closed;
  came_first = ground (arith, s.came_first);
  none_lost = ground (arith, s.none_lost);
}

received-IsSound : (h : Handler) → 0 < h.buffered → IsSound h → IsSound (received h)
unfolding received
received-IsSound h b s = ground (arith, s.closed, s.came_first, s.none_lost)

Reachable-IsSound : {h : Handler} → Reachable h → IsSound h
Reachable-IsSound starts = record {
  closed = refl;
  came_first = omega arith;
  none_lost = inl (omega arith);
}
Reachable-IsSound (comes r) = notify-IsSound _ (Reachable-IsSound r)
Reachable-IsSound (takes r (receive h b n)) = received-IsSound h b (Reachable-IsSound r)

-- At every moment from the start, however the signals come and the goroutine runs: the goroutine
-- has taken no more signals than have come, and the stop channel is closed exactly if it has taken
-- one, so that it is not closed before a signal and the program does not exit before two.
pub signals_needed :
    (h : Handler) → Reachable h → (taken h.stage ≤ h.came) × (h.stop_closed ≡ ltb 0 (taken h.stage))
signals_needed h r = ground (arith, (Reachable-IsSound r).closed, (Reachable-IsSound r).came_first)

buffer_waits :
    (h : Handler) → IsSound h → taken h.stage < h.came → taken h.stage < 2 → 0 < h.buffered
buffer_waits h s c t = omega (arith, s.none_lost)

-- a receive that the goroutine waits for, and what comes of it
abbrev pub Stopping : Handler → Type 0
Stopping h = (i : Handler) × Receives h i × (i.stop_closed ≡ true)

abbrev pub Exiting : Handler → Type 0
Exiting h = (i : Handler) × Receives h i × (i.stage ≡ exited)

Stage-cases : (g : Stage) → (g ≡ first) ⊎ ((g ≡ second) ⊎ (g ≡ exited))
Stage-cases first = inl refl
Stage-cases second = inr (inl refl)
Stage-cases exited = inr (inr refl)

-- the next signal is there, and the goroutine takes it
next_signal :
    (h : Handler) → IsSound h → taken h.stage < h.came → h.stage ≢ exited → Receive h (received h)
next_signal h s c n = receive h (buffer_waits h s c (ground (arith, c))) n

first_stops :
    (h : Handler)
    → h.stage ≡ first
    → ((received h).stage ≡ second) × ((received h).stop_closed ≡ true)
unfolding received
first_stops h e = rw (e, received) (refl, refl)

second_exits : (h : Handler) → h.stage ≡ second → (received h).stage ≡ exited
unfolding received
second_exits h e = rw (e, received) refl

received-came : (h : Handler) → (received h).came ≡ h.came
unfolding received
received-came h = ground arith

exit_of_second : (h : Handler) → Reachable h → 2 ≤ h.came → h.stage ≡ second → Exiting h
exit_of_second h r c e =
    let next = next_signal h (Reachable-IsSound r) (rw e (omega (arith, c))) (λ x. cc) in
    (received h, more next done, second_exits h e)

-- No signal that matters is lost, although the channel holds two at most: whenever a signal has
-- come, the signals in the channel let the goroutine run on until the stop channel is closed.
pub stop_served : (h : Handler) → Reachable h → 1 ≤ h.came → Stopping h
stop_served h r c = elim (Stage-cases h.stage) [
  | inl e ↦
      let next = next_signal h (Reachable-IsSound r) (rw e (omega (arith, c))) (λ x. cc) in
      (received h, more next done, (first_stops h e).1)
  | inr (inl e) ↦ (h, done, rw ((Reachable-IsSound r).closed, e) refl)
  | inr (inr e) ↦ (h, done, rw ((Reachable-IsSound r).closed, e) refl)
]

-- Whenever two signals have come, the signals in the channel let the goroutine run on until the
-- program exits.
pub exit_served : (h : Handler) → Reachable h → 2 ≤ h.came → Exiting h
exit_served h r c = elim (Stage-cases h.stage) [
  | inl e ↦
      let next = next_signal h (Reachable-IsSound r) (rw e (omega (arith, c))) (λ x. cc) in
      let enough : 2 ≤ (received h).came = rw (received-came h) c in
      let (i, rest, over) = exit_of_second (received h) (takes r next) enough (first_stops h e).0 in
      (i, more next rest, over)
  | inr (inl e) ↦ exit_of_second h r c e
  | inr (inr e) ↦ (h, done, e)
]
