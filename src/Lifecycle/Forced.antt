-- ===== src/Lifecycle/Forced.antt =====
-- What a forced shutdown reports.
use etas.Base.{ℕ, Text, Option, none, some, List, [], ◌∷◌, ◌≡◌, refl, arith}
use etas.Diagnostics.{Result, ok, err}
use etas.Lifecycle.{Signal, reason, Trigger, second_signal, grace_expired, StopState, observe}
use etas.Lifecycle.Command.{exit_of}
use etas.Lifecycle.Run.{
  Event, finished, signalled, expired, StopWait, terminated, timed_out, RunControl, forced_run,
  Driven, finish_run, force, settle, await_trigger, with_deadline, stopping, await_signal,
  drive_from, drive,
}

-- The signal that started the shutdown: the one seen before the run, or the first of its events.
abbrev pub first_signal : {R : Type 0} → Option Signal → List (Event R) → Option Signal
first_signal (some signal) events = some signal
first_signal none [] = none
first_signal none (signalled now (ok signal) ∷ events) = some signal
first_signal none (_ ∷ events) = first_signal none events

-- If the run was given up, it is reported with the exit code of `signal` and with a trigger that the
-- stop state keeps, as it keeps the signal.
abbrev pub Reports : {R P J : Type 0} → Option Signal → Driven R P J → Type 0
Reports signal (s, some (ok (forced_run e trigger pending events))) =
    (exit_of signal ≡ some e) × (s.first ≡ signal) × (s.forced ≡ some trigger)
Reports signal _ = Unit

module _ {R P J : Type 0} (control : RunControl R P J) where
  finish_run-Reports :
      (o : Option Signal) (r : Result Text R) (s : StopState)
      → Reports {P = P} {J = J} o (s, some (finish_run r))
  finish_run-Reports o (ok r) s = tt
  finish_run-Reports o (err e) s = tt

  force-Reports :
      (signal : Signal) (trigger : Trigger) (pending : P) (events : Result Text J) (s : StopState)
      → s.first ≡ some signal
      → Reports (some signal) (force control signal trigger pending events s)
  unfolding force
  force-Reports signal trigger pending (err e) s h = tt
  force-Reports signal trigger pending (ok j) s h = (refl, h, refl)

  settle-Reports :
      (signal : Signal) (trigger : Trigger) (w : Result Text (StopWait P)) (s : StopState)
      → s.first ≡ some signal
      → Reports (some signal) (settle control signal trigger w s)
  unfolding settle
  settle-Reports signal trigger (err e) s h = tt
  settle-Reports signal trigger (ok terminated) s h = finish_run-Reports (some signal) control.run s
  settle-Reports signal trigger (ok (timed_out pending)) s h =
      force-Reports signal trigger pending control.snapshot s h

  observe-first :
      (now : ℕ) (next signal : Signal) (s : StopState)
      → s.first ≡ some signal
      → (observe now next s).first ≡ some signal
  unfolding observe
  observe-first now next signal s h = ground (arith, h)

  await_trigger-Reports :
      (signal : Signal) (events : List (Event R)) (s : StopState)
      → s.first ≡ some signal
      → Reports (some signal) (await_trigger control signal events s)
  unfolding await_trigger
  await_trigger-Reports signal [] s h = tt
  await_trigger-Reports signal (finished r ∷ events) s h = finish_run-Reports (some signal) r s
  await_trigger-Reports signal (signalled now (err e) ∷ events) s h = tt
  await_trigger-Reports signal (signalled now (ok next) ∷ events) s h =
      settle-Reports signal second_signal control.wait_stopped _ (observe-first now next signal s h)
  await_trigger-Reports signal (expired ∷ events) s h =
      settle-Reports signal grace_expired control.wait_stopped s h

  with_deadline-Reports :
      (signal : Signal) (deadline : Option ℕ) (events : List (Event R)) (s : StopState)
      → s.first ≡ some signal
      → Reports (some signal) (with_deadline control signal deadline events s)
  unfolding with_deadline
  with_deadline-Reports signal none events s h = tt
  with_deadline-Reports signal (some d) events s h = await_trigger-Reports signal events s h

  stopping-Reports :
      (signal : Signal) (r : Result Text (Unit {0})) (events : List (Event R)) (s : StopState)
      → s.first ≡ some signal
      → Reports (some signal) (stopping control signal r events s)
  unfolding stopping
  stopping-Reports signal (err e) events s h = tt
  stopping-Reports signal (ok u) events s h = with_deadline-Reports signal s.deadline events s h

  observed_new :
      (now : ℕ) (signal : Signal) (s : StopState)
      → s.first ≡ none
      → (observe now signal s).first ≡ some signal
  unfolding observe
  observed_new now signal s h = ground (arith, h)

  await_signal-Reports :
      (events : List (Event R)) (s : StopState)
      → s.first ≡ none
      → Reports (first_signal none events) (await_signal control events s)
  unfolding await_signal
  await_signal-Reports [] s h = tt
  await_signal-Reports (finished r ∷ events) s h = finish_run-Reports _ r s
  await_signal-Reports (signalled now (err e) ∷ events) s h = tt
  await_signal-Reports (signalled now (ok signal) ∷ events) s h =
      stopping-Reports signal (control.stop (reason signal)) events _ (observed_new now signal s h)
  await_signal-Reports (expired ∷ events) s h = await_signal-Reports events s h

  drive_from-Reports :
      (o : Option Signal) (events : List (Event R)) (s : StopState)
      → s.first ≡ o
      → Reports (first_signal o events) (drive_from control o events s)
  unfolding drive_from
  drive_from-Reports none events s h = await_signal-Reports events s h
  drive_from-Reports (some signal) events s h =
      stopping-Reports signal (control.stop (reason signal)) events s h

  -- However the run, the signals and the deadline interleave: a run that is given up is reported with
  -- the exit code of the signal that started the shutdown, never with that of a later one; the stop
  -- state keeps that signal, and the trigger that the report names.
  pub drive-Reports :
      (events : List (Event R)) (s : StopState)
      → Reports (first_signal s.first events) (drive control events s)
  unfolding drive
  drive-Reports events s = drive_from-Reports s.first events s refl
