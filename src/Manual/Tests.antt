-- ===== src/Manual/Tests.antt =====
-- A run of src/algo/sched/manual.cpp: task 1 schedules tasks 5 and 6.
use serious_execution_librar.Prelude.{
  ℕ, ◌≡◌, refl, true, false, some, List, [], ◌∷◌, ◌==◌, if◌then◌else◌,
}
use serious_execution_librar.Manual.{Manual, any, occurs, relinks, execute_batch, execute_at_most}
use serious_execution_librar.Manual.Batch.{execute_at_most-execute_batch}

abbrev spawns : ℕ → List ℕ
spawns n = if n == 1 then 5 ∷ 6 ∷ [] else []

abbrev two_tasks : Manual
two_tasks = record { task_queue = 1 ∷ 2 ∷ []; executed = [] }

none_relinked : relinks spawns two_tasks.task_queue two_tasks.task_queue ≡ false
unfolding relinks occurs any
none_relinked = refl

execute_at_most-execute_batch_example :
    execute_batch spawns two_tasks ≡ some (execute_at_most spawns 2 two_tasks)
execute_at_most-execute_batch_example = execute_at_most-execute_batch spawns two_tasks none_relinked

-- A task that schedules itself again.
again_relinks : relinks (λ n. n ∷ []) two_tasks.task_queue two_tasks.task_queue ≡ true
unfolding relinks occurs any
again_relinks = refl
