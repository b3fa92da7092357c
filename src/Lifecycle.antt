-- ===== src/Lifecycle.antt =====
-- The signals, the stop state and the exit codes of crates/etas_cli/src/exit.rs and
-- crates/etas_cli/src/command/interpreter/lifecycle. An instant is a number; what a `select!` may see
-- first is an explicit sequence of events, in the order in which they become ready.
pub mod Run
pub mod Command
pub mod Forced
pub mod Stable
use etas.Base.{ℕ, ◌+◌, Option, none, some, is_some, if◌then◌else◌}

pub data CliExit : Type 0 where
  success diagnostics usage runtime_failure internal_compiler_error interrupted terminated : CliExit

abbrev pub code : CliExit → ℕ
code success = 0
code diagnostics = 1
code usage = 2
code runtime_failure = 3
code internal_compiler_error = 4
code interrupted = 130
code terminated = 143

pub data Signal : Type 0 where
  interrupt terminate : Signal

pub data CancellationReason : Type 0 where
  interrupt_reason terminate_reason : CancellationReason

abbrev pub reason : Signal → CancellationReason
reason interrupt = interrupt_reason
reason terminate = terminate_reason

abbrev pub exit : Signal → CliExit
exit interrupt = interrupted
exit terminate = terminated

pub data Trigger : Type 0 where
  second_signal grace_expired : Trigger

pub record StopState : Type 0 where
  pub first : Option Signal
  pub deadline : Option ℕ
  pub grace : ℕ
  pub forced : Option Trigger

abbrev pub default_stop : StopState
default_stop = record { first = none; deadline = none; grace = 5000; forced = none }

-- `now` is the instant of the call.
unfoldable pub observe : ℕ → Signal → StopState → StopState
observe now signal s =
    if is_some s.first
    then record s { forced = some second_signal }
    else record s { first = some signal; deadline = some (now + s.grace) }
