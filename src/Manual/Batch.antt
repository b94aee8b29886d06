-- ===== src/Manual/Batch.antt =====
-- The two ways to run tasks of src/algo/sched/manual.cpp compared.
use serious_execution_librar.Prelude.{
  ℕ, ◌+◌, ◌≡◌, refl, false, some, List, [], ◌∷◌, ◌++◌, length, arith, append_assoc, append-nil, ap,
  sym, ◌∙◌,
}
use serious_execution_librar.Manual.{
  Manual, schedule, schedule_all, execute, execute_each, relinks, execute_batch, execute_from,
  execute_at_most,
}

module _ (spawns : ℕ → List ℕ) where
  -- A machine with tasks in front of its queue that were there before.
  behind : List ℕ → Manual → Manual
  behind front m = record m { task_queue = front ++ m.task_queue }

  schedule_all-behind :
      (front ns : List ℕ) (m : Manual)
      → schedule_all spawns ns (behind front m) ≡ behind front (schedule_all spawns ns m)
  unfolding schedule_all schedule behind
  schedule_all-behind front [] m = refl
  schedule_all-behind front (n ∷ ns) m =
      ap (λ (q : List ℕ). schedule_all spawns ns (record m { task_queue = q }))
        (append_assoc front m.task_queue (n ∷ []))
      ∙ schedule_all-behind front ns (schedule spawns n m)

  execute_from-each :
      (front : List ℕ) (counter : ℕ) (m : Manual)
      → execute_from spawns counter (length front) (behind front m)
        ≡ (counter + length front, execute_each spawns front m)
  unfolding execute_from execute_each execute behind
  execute_from-each [] counter m = ap (λ (k : ℕ). (k, m)) (omega arith)
  execute_from-each (n ∷ front) counter m =
      ap (execute_from spawns (counter + 1) (length front))
        (schedule_all-behind front (spawns n) (record m { executed = m.executed ++ n ∷ [] }))
      ∙ execute_from-each front (counter + 1) (execute spawns n m)
      ∙ ap (λ (k : ℕ). (k, execute_each spawns front (execute spawns n m))) (omega arith)

  -- If no task of the queue is scheduled again while the tasks of the queue run, `execute_batch`
  -- returns the same count and leaves the same state as `execute_at_most` with the number of tasks in
  -- the queue: the other tasks that they schedule wait for the next call.
  pub execute_at_most-execute_batch :
      (m : Manual)
      → relinks spawns m.task_queue m.task_queue ≡ false
      → execute_batch spawns m ≡ some (execute_at_most spawns (length m.task_queue) m)
  unfolding execute_at_most execute_batch behind
  execute_at_most-execute_batch m apart = rw (apart, execute_batch) (ap some (sym same))
    where
      same :
          execute_at_most spawns (length m.task_queue) m
          ≡ (length m.task_queue, execute_each spawns m.task_queue (record m { task_queue = [] }))
      same =
          ap
            (λ (q : List ℕ).
              execute_from spawns 0 (length m.task_queue) (record m { task_queue = q }))
            (sym (append-nil m.task_queue))
          ∙ execute_from-each m.task_queue 0 (record m { task_queue = [] })
          ∙ ap (λ (k : ℕ). (k, execute_each spawns m.task_queue (record m { task_queue = [] })))
              (omega arith)
