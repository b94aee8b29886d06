-- ===== src/Serial/Tests.antt =====
-- A run of include/sl/exec/algo/sync/serial.hpp, and its theorems at it.
use serious_execution_librar.Prelude.{
  ℕ, ◌+◌, ◌≤◌, ◌≡◌, ◌≢◌, ◌⊎◌, refl, false, List, [], ◌∷◌, ◌++◌, arith, reverse, map,
}
use serious_execution_librar.Serial.{
  Run, Serial, task_of, init, push, announce, run_one, begin, finish, stop, pushes, announces,
  begins, runs, stops, Reach, start, later,
}
use serious_execution_librar.Serial.Invariant.{running}
use serious_execution_librar.Serial.Order.{
  left, handled_in_order, one_activation, no_task_forgotten,
}

reverses : (xs : List ℕ) → reverse xs ≡ reverse xs
reverses xs = refl

-- Task 4 is pushed and the executor's task scheduled, then task 5 is pushed while the batch runs.
abbrev one_waits : Serial
one_waits = announce (push 4 init)

Reach-one : Reach reverse one_waits
unfolding push announce init
Reach-one = later (later start (pushes 4 (omega arith) (omega arith))) (announces (omega arith))

abbrev first_run : Run
first_run = record { todo = 4 ∷ []; batch_size = 0; cancelling = false; again = false }

abbrev overlapping : Serial
overlapping = announce (push 5 (run_one first_run (begin reverse false one_waits)))

Reach-overlapping : Reach reverse overlapping
unfolding push announce init begin serious_execution_librar.Serial.extract run_one
Reach-overlapping =
    later
      (later (later (later Reach-one (begins false (omega arith))) (runs first_run refl (λ e. cc)))
        (pushes 5 (omega arith) (omega arith)))
      (announces (omega arith))

none_stopped : overlapping.stopped ≡ false
unfolding push announce init begin serious_execution_librar.Serial.extract run_one
none_stopped = refl

handled_in_order_example :
    map task_of overlapping.handled ++ (left overlapping.run ++ reverse overlapping.batch)
    ≡ overlapping.pushed
handled_in_order_example = handled_in_order reverse reverses Reach-overlapping none_stopped

one_activation_example :
    (overlapping.queued + running overlapping.run ≤ 1)
    × ((overlapping.queued ≡ 0) ⊎ (overlapping.batch ≢ []))
one_activation_example = one_activation reverse reverses Reach-overlapping none_stopped

none_pushing : overlapping.pushing ≡ 0
unfolding push announce init begin serious_execution_librar.Serial.extract run_one
none_pushing = refl

no_task_forgotten_example :
    (map task_of overlapping.handled ≡ overlapping.pushed)
    ⊎ (overlapping.queued + running overlapping.run ≡ 1)
no_task_forgotten_example =
    no_task_forgotten reverse reverses Reach-overlapping none_stopped none_pushing

-- The second task keeps the executor active: its task is scheduled again.
rescheduled :
    (finish
      (record { todo = []; batch_size = 1; cancelling = false; again = false })
      overlapping).queued
    ≡ 1
unfolding push announce init begin serious_execution_librar.Serial.extract run_one finish
rescheduled = refl

-- A client's `stop` handles the task that waits and leaves `task_` on the inner executor with an empty
-- stack, on which `execute` asserts that it is not empty.
abbrev stopped_early : Serial
stopped_early = stop reverse one_waits

Reach-stopped_early : Reach reverse stopped_early
unfolding push announce init
Reach-stopped_early = later Reach-one (stops refl)

assertion_fails : (stopped_early.queued ≡ 1) × (stopped_early.batch ≡ [])
unfolding push announce init stop
assertion_fails = (refl, refl)
