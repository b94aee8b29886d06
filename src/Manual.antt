-- ===== src/Manual.antt =====
-- src/algo/sched/manual.cpp, `manual_executor`: tasks run when the owner asks.
pub mod Batch
mod Tests
use serious_execution_librar.Prelude.{
  ℕ, zero, suc, ◌+◌, Bool, false, Option, none, some, List, [], ◌∷◌, ◌++◌, ◌==◌, ◌||◌,
  if◌then◌else◌, length,
}

-- The queue, and the tasks executed so far.
pub record Manual : Type 0 where
  pub task_queue : List ℕ
  pub executed : List ℕ

pub any : (ℕ → Bool) → List ℕ → Bool
any p [] = false
any p (k ∷ ks) = p k || any p ks

pub occurs : ℕ → List ℕ → Bool
unfolding any
occurs n ks = any (λ k. k == n) ks

-- What tasks do is a parameter: those that a task schedules on this executor while it is executed.
module _ (spawns : ℕ → List ℕ) where
  pub schedule : ℕ → Manual → Manual
  schedule n m = record m { task_queue = m.task_queue ++ n ∷ [] }

  schedule_all : List ℕ → Manual → Manual
  unfolding schedule
  schedule_all [] m = m
  schedule_all (n ∷ ns) m = schedule_all ns (schedule n m)

  pub execute : ℕ → Manual → Manual
  unfolding schedule_all
  execute n m = schedule_all (spawns n) (record m { executed = m.executed ++ n ∷ [] })

  pub execute_each : List ℕ → Manual → Manual
  unfolding execute
  execute_each [] m = m
  execute_each (n ∷ batch) m = execute_each batch (execute n m)

  -- Whether one of these tasks schedules a task of the batch: its links are overwritten, which the
  -- loop over the batch still follows.
  pub relinks : List ℕ → List ℕ → Bool
  relinks batch [] = false
  relinks batch (n ∷ ns) = any (λ k. occurs k batch) (spawns n) || relinks batch ns

  -- The queue is moved out, and the size of the batch returned. What a list does whose links are
  -- overwritten is not said here: `none`.
  pub execute_batch : Manual → Option (ℕ × Manual)
  unfolding execute_each
  execute_batch m =
      if relinks m.task_queue m.task_queue
      then none
      else some (length m.task_queue, execute_each m.task_queue (record m { task_queue = [] }))

  -- The loop, from a counter, for so many more rounds.
  pub execute_from : ℕ → ℕ → Manual → ℕ × Manual
  unfolding execute
  execute_from counter zero m = (counter, m)
  execute_from counter (suc rounds) m = elim m.task_queue [
    | [] ↦ (counter, m)
    | n ∷ rest ↦ execute_from (counter + 1) rounds (execute n (record m { task_queue = rest }))
  ]

  pub execute_at_most : ℕ → Manual → ℕ × Manual
  unfolding execute_from
  execute_at_most n m = execute_from 0 n m
