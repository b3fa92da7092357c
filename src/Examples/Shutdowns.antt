-- ===== src/Examples/Shutdowns.antt =====
-- A run that is interrupted, then terminated, and an output after it.
use etas.Base.{Text, codes, none, some, false, List, [], ◌∷◌, ◌≡◌, refl}
use etas.Diagnostics.{ok, err}
use etas.Lifecycle.{interrupt, terminate, interrupted, success, default_stop}
use etas.Lifecycle.Run.{Event, signalled, RunControl, timed_out, drive}
use etas.Lifecycle.Command.{
  State, new, execute, io, settled, Steps, start, by_execute, by_io, exit_override, status,
  forced_status,
}
use etas.Lifecycle.Forced.{first_signal, Reports, drive-Reports}
use etas.Lifecycle.Stable.{exit_override-Steps, status-Steps}

abbrev stuck : RunControl Text Text Text
stuck = record {
  stop = λ _. ok tt;
  wait_stopped = ok (timed_out (codes "main"));
  run = err [];
  snapshot = ok [];
}

abbrev two_signals : List (Event Text)
two_signals = signalled 10 (ok interrupt) ∷ signalled 20 (ok terminate) ∷ []

abbrev stopped : State
stopped = (execute stuck 1000 21 two_signals new).0

abbrev written : State
written = (io {T = Text} (codes "stdout") false 22 (settled (ok []) ∷ []) stopped).0

stopped-Steps : Steps new stopped
stopped-Steps = by_execute stuck 1000 21 two_signals start refl

written-Steps : Steps stopped written
written-Steps = by_io {T = Text} (codes "stdout") false 22 (settled (ok []) ∷ []) start refl

drive-Reports_example :
    Reports (first_signal none two_signals) (drive stuck two_signals default_stop)
drive-Reports_example = drive-Reports stuck two_signals default_stop

exit_override-Steps_example : exit_override written ≡ some interrupted
unfolding exit_override execute
exit_override-Steps_example =
    exit_override-Steps stopped written interrupted stopped-Steps written-Steps refl

status-Steps_example : status written (some success) ≡ forced_status
unfolding status execute
status-Steps_example =
    status-Steps stopped written none (some success) stopped-Steps written-Steps refl
