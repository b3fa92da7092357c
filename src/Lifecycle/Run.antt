-- ===== src/Lifecycle/Run.antt =====
-- `drive` of crates/etas_cli/src/command/interpreter/lifecycle/run.rs. The run's control, which the
-- interpreter provides, and the journal are parameters.
use etas.Base.{ℕ, Text, codes, Option, none, some, List, [], ◌∷◌}
use etas.Diagnostics.{Result, ok, err}
use etas.Lifecycle.{
  CliExit, Signal, CancellationReason, reason, exit, Trigger, second_signal, grace_expired,
  StopState, observe,
}

-- What becomes ready: the run's result, a signal or the failure of its source, the deadline.
pub data Event (R : Type 0) : Type 0 where
  finished : Result Text R → Event R
  signalled : (now : ℕ) → Result Text Signal → Event R
  expired : Event R

pub data StopWait (P : Type 0) : Type 0 where
  terminated : StopWait P
  timed_out : (pending : P) → StopWait P

-- `run` is the result of a run that has terminated when `wait_stopped` says so.
pub record RunControl (R P J : Type 0) : Type 0 where
  pub stop : CancellationReason → Result Text (Unit {0})
  pub wait_stopped : Result Text (StopWait P)
  pub run : Result Text R
  pub snapshot : Result Text J

pub data ControlledRun (R P J : Type 0) : Type 0 where
  finished_run : R → ControlledRun R P J
  forced_run : CliExit → Trigger → (pending : P) → (events : J) → ControlledRun R P J

-- The stop state with what `drive` returns; `none` while it waits.
abbrev pub Driven : Type 0 → Type 0 → Type 0 → Type 0
Driven R P J = StopState × Option (Result Text (ControlledRun R P J))

module _ {R P J : Type 0} where
  abbrev pub finish_run : Result Text R → Result Text (ControlledRun R P J)
  finish_run (ok result) = ok (finished_run result)
  finish_run (err e) = err e

  module _ (control : RunControl R P J) where
    -- `stop.forced = Some(trigger)` comes before the snapshot of the journal, which may fail.
    unfoldable pub force : Signal → Trigger → P → Result Text J → StopState → Driven R P J
    force signal trigger pending (err e) s = (record s { forced = some trigger }, some (err e))
    force signal trigger pending (ok events) s = (
      record s { forced = some trigger },
      some (ok (forced_run (exit signal) trigger pending events)),
    )

    -- From `control.wait_stopped(..)` on.
    unfoldable pub settle : Signal → Trigger → Result Text (StopWait P) → StopState → Driven R P J
    unfolding force
    settle signal trigger (err e) s = (s, some (err e))
    settle signal trigger (ok terminated) s = (s, some (finish_run control.run))
    settle signal trigger (ok (timed_out pending)) s =
        force signal trigger pending control.snapshot s

    -- The second `select!`.
    unfoldable pub await_trigger : Signal → List (Event R) → StopState → Driven R P J
    unfolding settle observe
    await_trigger signal [] s = (s, none)
    await_trigger signal (finished result ∷ events) s = (s, some (finish_run result))
    await_trigger signal (signalled now (err e) ∷ events) s = (s, some (err e))
    await_trigger signal (signalled now (ok next) ∷ events) s =
        settle signal second_signal control.wait_stopped (observe now next s)
    await_trigger signal (expired ∷ events) s = settle signal grace_expired control.wait_stopped s

    -- `stop.deadline.ok_or_else(..)?`, which the second `select!` starts with.
    unfoldable pub with_deadline : Signal → Option ℕ → List (Event R) → StopState → Driven R P J
    unfolding await_trigger
    with_deadline signal none events s = (s, some (err (codes "stop has no deadline")))
    with_deadline signal (some deadline) events s = await_trigger signal events s

    -- From `control.stop(..)` on.
    unfoldable pub stopping :
        Signal → Result Text (Unit {0}) → List (Event R) → StopState → Driven R P J
    unfolding with_deadline
    stopping signal (err e) events s = (s, some (err e))
    stopping signal (ok u) events s = with_deadline signal s.deadline events s

    -- The first `select!`, in which no deadline takes part.
    unfoldable pub await_signal : List (Event R) → StopState → Driven R P J
    unfolding stopping observe
    await_signal [] s = (s, none)
    await_signal (finished result ∷ events) s = (s, some (finish_run result))
    await_signal (signalled now (err e) ∷ events) s = (s, some (err e))
    await_signal (signalled now (ok signal) ∷ events) s =
        stopping signal (control.stop (reason signal)) events (observe now signal s)
    await_signal (expired ∷ events) s = await_signal events s

    unfoldable pub drive_from : Option Signal → List (Event R) → StopState → Driven R P J
    unfolding await_signal stopping
    drive_from (some signal) events s = stopping signal (control.stop (reason signal)) events s
    drive_from none events s = await_signal events s

    unfoldable pub drive : List (Event R) → StopState → Driven R P J
    unfolding drive_from
    drive events s = drive_from s.first events s
