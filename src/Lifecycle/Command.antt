-- ===== src/Lifecycle/Command.antt =====
-- `CommandLifecycle::execute`, `io`, `exit_override` and `status` of
-- crates/etas_cli/src/command/interpreter/lifecycle/command.rs. Re-entry and a closed runtime, which
-- are errors of the callers, are not modelled.
use etas.Base.{
  ◌≡◌, ℕ, ◌+◌, Text, Option, none, some, Bool, true, false, ◌&&◌, ◌||◌, leb, is_some, List, [], ◌∷◌,
  ◌++◌, if◌then◌else◌,
}
use etas.Diagnostics.{Result, ok, err}
use etas.Lifecycle.{
  CliExit, success, interrupted, terminated, Signal, exit, grace_expired, StopState, default_stop,
  observe,
}
use etas.Lifecycle.Run.{Event, RunControl, ControlledRun, forced_run, Driven, drive}

pub record State : Type 0 where
  pub stop : StopState
  pub pending_output : List Text
  pub finalization_deadline : Option ℕ
  pub output_deadline : Option ℕ

abbrev pub new : State
new = record {
  stop = default_stop;
  pending_output = [];
  finalization_deadline = none;
  output_deadline = none;
}

abbrev finalization_grace : ℕ
finalization_grace = 250

module _ {R P J : Type 0} where
  -- `matches!(&result, Ok(ControlledRun::Forced(_)))`
  abbrev is_forced : Option (Result Text (ControlledRun R P J)) → Bool
  is_forced (some (ok (forced_run e t p j))) = true
  is_forced _ = false

  abbrev pub after_drive :
      ℕ → State → Driven R P J → State × Option (Result Text (ControlledRun R P J))
  after_drive now s (stop, result) = (
    (if is_forced result
        then record s {
          stop = stop;
          finalization_deadline = some (now + finalization_grace);
          output_deadline = some (now + 25);
        }
        else record s { stop = stop }),
    result,
  )

  -- `now` is the instant at which `drive` returns.
  unfoldable pub execute :
      RunControl R P J
      → ℕ
      → ℕ
      → List (Event R)
      → State
      → State × Option (Result Text (ControlledRun R P J))
  unfolding drive
  execute control grace_ms now events s =
      after_drive now s (drive control events (record s.stop { grace = grace_ms }))

pub data IoError : Type 0 where
  timed_out failed : IoError

-- What becomes ready while a blocking job runs.
pub data IoEvent (T : Type 0) : Type 0 where
  expired : IoEvent T
  signalled : (now : ℕ) → Option Signal → IoEvent T
  settled : Result IoError T → IoEvent T

abbrev pub or_set : {A : Type 0} → Option A → A → Option A
or_set none a = some a
or_set (some b) a = some b

-- The two `if`s at the beginning of `io`.
abbrev pub with_deadlines : ℕ → State → State
with_deadlines now s =
    if is_some s.stop.forced
    then record s {
      finalization_deadline = or_set s.finalization_deadline (now + finalization_grace);
      output_deadline = or_set s.output_deadline (now + 25);
    }
    else s

abbrev passed : ℕ → Option ℕ → Bool
passed now none = false
passed now (some limit) = leb limit now

abbrev output_limit : Bool → State → Option ℕ
output_limit artifact s = if artifact then s.finalization_deadline else s.output_deadline

-- A deadline takes part in the `select!`.
abbrev pub armed : StopState → Bool
armed s = is_some s.forced || is_some s.deadline

module _ {T : Type 0} where
  -- The `loop` of `io`, on the stop state.
  unfoldable pub wait_job : List (IoEvent T) → StopState → StopState × Option (Result IoError T)
  unfolding observe
  wait_job [] s = (s, none)
  wait_job (expired ∷ events) s =
      let rest = wait_job events s in
      if armed s
      then (record s { forced = or_set s.forced grace_expired }, some (err timed_out))
      else rest
  wait_job (signalled now none ∷ events) s = (s, some (err failed))
  wait_job (signalled now (some signal) ∷ events) s =
      let s' = observe now signal s in
      let rest = wait_job events s' in
      if is_some s'.forced then (s', some (err timed_out)) else rest
  wait_job (settled result ∷ events) s = (s, some result)

  abbrev is_timed_out : Option (Result IoError T) → Bool
  is_timed_out (some (err timed_out)) = true
  is_timed_out _ = false

  abbrev after_job :
      Text → ℕ → State → StopState × Option (Result IoError T) → State × Option (Result IoError T)
  after_job label now s (stop, result) = (
    (if is_timed_out result
        then record s {
          stop = stop;
          pending_output = s.pending_output ++ label ∷ [];
          finalization_deadline = or_set s.finalization_deadline (now + finalization_grace);
        }
        else record s { stop = stop }),
    result,
  )

  unfoldable pub io : Text → Bool → ℕ → List (IoEvent T) → State → State × Option (Result IoError T)
  unfolding wait_job
  io label artifact now events s =
      let s' = with_deadlines now s in
      if is_some s'.stop.forced && passed now (output_limit artifact s')
      then (s', some (err timed_out))
      else after_job label now s' (wait_job events s'.stop)

abbrev pub exit_of : Option Signal → Option CliExit
exit_of none = none
exit_of (some signal) = some (exit signal)

unfoldable pub exit_override : State → Option CliExit
exit_override s = exit_of s.stop.first

pub data Status : Type 0 where
  forced_status cancelled_status ok_status error_status : Status

abbrev stops : Option CliExit → Bool
stops (some interrupted) = true
stops (some terminated) = true
stops _ = false

abbrev succeeds : Option CliExit → Bool
succeeds (some success) = true
succeeds _ = false

unfoldable pub status : State → Option CliExit → Status
status s e =
    if is_some s.stop.forced
    then forced_status
    else if is_some s.stop.first || stops e
    then cancelled_status
    else if succeeds e
    then ok_status
    else error_status

-- What a command's runs and outputs lead to from a state.
pub data Steps (s : State) : State → Type 1 where
  start : Steps s s
  by_execute :
      {t u : State} {R P J : Type 0}
      → (control : RunControl R P J) (grace_ms now : ℕ) (events : List (Event R)) → Steps s t
      → (execute control grace_ms now events t).0 ≡ u
      → Steps s u
  by_io :
      {t u : State} {T : Type 0}
      → (label : Text) (artifact : Bool) (now : ℕ) (events : List (IoEvent T)) → Steps s t
      → (io label artifact now events t).0 ≡ u
      → Steps s u
