-- ===== src/Lifecycle/Stable.antt =====
-- What runs and outputs never undo.
use etas.Base.{
  ℕ, Text, Option, none, some, Bool, true, List, [], ◌∷◌, ◌≡◌, refl, ap, arith, is_some,
}
use mathlib.Core.Path.{subst}
use etas.Diagnostics.{Result, ok, err}
use etas.Lifecycle.{
  CliExit, terminated, Signal, reason, Trigger, second_signal, grace_expired, StopState, observe,
}
use etas.Lifecycle.Run.{
  Event, StopWait, RunControl, force, settle, await_trigger, with_deadline, stopping, await_signal,
  drive_from, drive,
}
use etas.Lifecycle.Command.{
  State, new, execute, IoEvent, wait_job, io, with_deadlines, exit_override, forced_status, status,
  Steps, start, by_execute, by_io,
}

-- From `s` to `s'` a first signal and a forced shutdown stay, and a forced shutdown has a first signal.
abbrev pub Later : StopState → StopState → Type 0
Later s s' =
    (is_some s.first ≡ true → s'.first ≡ s.first)
    × (is_some s.forced ≡ true → is_some s'.forced ≡ true)
    × (is_some s'.first ≡ is_some s'.deadline)
    × (is_some s'.forced ≡ true → is_some s'.first ≡ true)

abbrev pub IsStop : StopState → Type 0
IsStop s =
    (is_some s.first ≡ is_some s.deadline) × (is_some s.forced ≡ true → is_some s.first ≡ true)

observe-Later :
    (now : ℕ) (signal : Signal) (s : StopState) → IsStop s → Later s (observe now signal s)
unfolding observe
observe-Later now signal s (d, f) = ground (arith, d, f)

Later-trans : (a b c : StopState) → Later a b → Later b c → Later a c
Later-trans a b c h k = ground (arith, h, k)

module _ {T : Type 0} where
  wait_job-Later :
      (events : List (IoEvent T)) (s : StopState) → IsStop s → Later s (wait_job events s).0
  unfolding wait_job
  wait_job-Later [] s h = ground (arith, h)
  wait_job-Later (IoEvent.expired ∷ events) s h = ground (arith, h, wait_job-Later events s h)
  wait_job-Later (IoEvent.signalled now none ∷ events) s h = ground (arith, h)
  wait_job-Later (IoEvent.signalled now (some signal) ∷ events) s h =
      let seen = observe-Later now signal s h in
      let rest = wait_job-Later events (observe now signal s) (seen.2, seen.3) in
      ground (
        arith,
        seen,
        Later-trans s (observe now signal s) (wait_job events (observe now signal s)).0 seen rest,
      )
  wait_job-Later (IoEvent.settled r ∷ events) s h = ground (arith, h)

module _ {R P J : Type 0} (control : RunControl R P J) where
  -- Forcing a shutdown asks for a first signal.
  settle-Later :
      (signal : Signal) (trigger : Trigger) (w : Result Text (StopWait P)) (s : StopState)
      → IsStop s
      → is_some s.first ≡ true
      → Later s (settle control signal trigger w s).0
  unfolding settle
  settle-Later signal trigger (err e) s h f = ground (arith, h)
  settle-Later signal trigger (ok StopWait.terminated) s h f = ground (arith, h)
  settle-Later signal trigger (ok (StopWait.timed_out pending)) s h f = forced control.snapshot
    where
      forced : (j : Result Text J) → Later s (force control signal trigger pending j s).0
      forced (err e) = ground (arith, h, f)
      forced (ok j) = ground (arith, h, f)

  first_kept :
      (now : ℕ) (signal : Signal) (s : StopState) → is_some (observe now signal s).first ≡ true
  unfolding observe
  first_kept now signal s = ground arith

  await_trigger-Later :
      (signal : Signal) (events : List (Event R)) (s : StopState)
      → IsStop s
      → is_some s.first ≡ true
      → Later s (await_trigger control signal events s).0
  unfolding await_trigger
  await_trigger-Later signal [] s h f = ground (arith, h)
  await_trigger-Later signal (Event.finished r ∷ events) s h f = ground (arith, h)
  await_trigger-Later signal (Event.signalled now (err e) ∷ events) s h f = ground (arith, h)
  await_trigger-Later signal (Event.signalled now (ok next) ∷ events) s h f =
      let seen = observe-Later now next s h in
      Later-trans s (observe now next s)
        (settle control signal second_signal control.wait_stopped (observe now next s)).0 seen
        (settle-Later signal second_signal control.wait_stopped (observe now next s)
          (seen.2, seen.3) (first_kept now next s))
  await_trigger-Later signal (Event.expired ∷ events) s h f =
      settle-Later signal grace_expired control.wait_stopped s h f

  with_deadline-Later :
      (signal : Signal) (deadline : Option ℕ) (events : List (Event R)) (s : StopState)
      → IsStop s
      → is_some s.first ≡ true
      → Later s (with_deadline control signal deadline events s).0
  unfolding with_deadline
  with_deadline-Later signal none events s h f = ground (arith, h)
  with_deadline-Later signal (some d) events s h f = await_trigger-Later signal events s h f

  stopping-Later :
      (signal : Signal) (r : Result Text (Unit {0})) (events : List (Event R)) (s : StopState)
      → IsStop s
      → is_some s.first ≡ true
      → Later s (stopping control signal r events s).0
  unfolding stopping
  stopping-Later signal (err e) events s h f = ground (arith, h)
  stopping-Later signal (ok u) events s h f = with_deadline-Later signal s.deadline events s h f

  await_signal-Later :
      (events : List (Event R)) (s : StopState)
      → IsStop s
      → Later s (await_signal control events s).0
  unfolding await_signal
  await_signal-Later [] s h = ground (arith, h)
  await_signal-Later (Event.finished r ∷ events) s h = ground (arith, h)
  await_signal-Later (Event.signalled now (err e) ∷ events) s h = ground (arith, h)
  await_signal-Later (Event.signalled now (ok signal) ∷ events) s h =
      let seen = observe-Later now signal s h in
      Later-trans s (observe now signal s)
        (stopping control signal (control.stop (reason signal)) events (observe now signal s)).0
        seen
        (stopping-Later signal (control.stop (reason signal)) events (observe now signal s)
          (seen.2, seen.3) (first_kept now signal s))
  await_signal-Later (Event.expired ∷ events) s h = await_signal-Later events s h

  drive_from-Later :
      (o : Option Signal) (events : List (Event R)) (s : StopState)
      → s.first ≡ o
      → IsStop s
      → Later s (drive_from control o events s).0
  unfolding drive_from
  drive_from-Later none events s e h = await_signal-Later events s h
  drive_from-Later (some signal) events s e h =
      stopping-Later signal (control.stop (reason signal)) events s h (ap is_some e)

  drive-Later :
      (events : List (Event R)) (s : StopState) → IsStop s → Later s (drive control events s).0
  unfolding drive
  drive-Later events s h = drive_from-Later s.first events s refl h

  execute-Later :
      (grace_ms now : ℕ) (events : List (Event R)) (s : State)
      → IsStop s.stop
      → Later s.stop (execute control grace_ms now events s).0.stop
  unfolding execute
  execute-Later grace_ms now events s h =
      let run = drive-Later events (record s.stop { grace = grace_ms }) h in ground (arith, run)

with_deadlines-stop : (now : ℕ) (s : State) → (with_deadlines now s).stop ≡ s.stop
with_deadlines-stop now s = ground arith

io-Later :
    {T : Type 0} (label : Text) (artifact : Bool) (now : ℕ) (events : List (IoEvent T)) (s : State)
    → IsStop s.stop
    → Later s.stop (io label artifact now events s).0.stop
unfolding io
io-Later label artifact now events s h =
    let same = with_deadlines-stop now s in
    let run = wait_job-Later events s.stop h in rw (same, io) (ground (arith, h, run))

Steps-Later : (s t : State) → IsStop s.stop → Steps s t → Later s.stop t.stop
Steps-Later s t h start = ground (arith, h)
Steps-Later s u h (by_execute {t = t} control grace_ms now events r e) =
    let before = Steps-Later s t h r in
    let run = execute-Later control grace_ms now events t (before.2, before.3) in
    subst (λ v. Later s.stop v.stop) e
      (Later-trans s.stop t.stop (execute control grace_ms now events t).0.stop before run)
Steps-Later s u h (by_io {t = t} label artifact now events r e) =
    let before = Steps-Later s t h r in
    let run = io-Later label artifact now events t (before.2, before.3) in
    subst (λ v. Later s.stop v.stop) e
      (Later-trans s.stop t.stop (io label artifact now events t).0.stop before run)

new-IsStop : IsStop new.stop
new-IsStop = (refl, λ e. absurd (cc))

reached-IsStop : (s : State) → Steps new s → IsStop s.stop
reached-IsStop s r = let l = Steps-Later new s new-IsStop r in (l.2, l.3)

-- Once a command has seen a signal, no later run, output or signal changes the exit code that it ends
-- with.
pub exit_override-Steps :
    (s t : State) (code : CliExit)
    → Steps new s
    → Steps s t
    → exit_override s ≡ some code
    → exit_override t ≡ some code
unfolding exit_override
exit_override-Steps s t code r q e =
    let later = Steps-Later s t (reached-IsStop s r) q in ground (arith, later, e)

-- Once a command's shutdown was forced, its status is `forced` after whatever follows, and with
-- whatever exit.
pub status-Steps :
    (s t : State) (e f : Option CliExit)
    → Steps new s
    → Steps s t
    → status s e ≡ forced_status
    → status t f ≡ forced_status
unfolding status
status-Steps s t e f r q h =
    let later = Steps-Later s t (reached-IsStop s r) q in ground (arith, later, h)

-- The first signal of a command, and the exit code that it ends with.
abbrev pub EndsWith : State → Signal → CliExit → Type 0
EndsWith s signal e = (s.stop.first ≡ some signal) × (exit_override s ≡ some e)
