-- ===== src/Signal/Tests.antt =====
-- Pipelines of the signals of include/sl/exec/algo/.
use serious_execution_librar.Prelude.{ℕ, ◌≡◌, some, refl, Bool, Option, ◌==◌, if◌then◌else◌}
use serious_execution_librar.Slot.{Result, ok, err, fulfill_slot}
use serious_execution_librar.Signal.{
  Signal, result_signal, value_as_signal, continue_on, and_then, get,
}
use serious_execution_librar.Signal.Laws.{settle}

-- What waits sees a value, an error or nothing. Executor 1 executes its tasks, the others cancel them.
abbrev Seen : Type 0
Seen = Option (Result ℕ ℕ)

abbrev executes : ℕ → Bool
executes ex = ex == 1

abbrev four : Signal Seen ℕ ℕ
four = continue_on 1 (value_as_signal 4)

abbrev checked : ℕ → Result ℕ ℕ
checked v = if v == 4 then err 9 else ok v

-- The functor runs on executor 1, and its error is seen.
failed : settle executes (get (and_then checked four)) ≡ some (some (err 9))
unfolding settle get and_then continue_on value_as_signal result_signal fulfill_slot
failed = refl
