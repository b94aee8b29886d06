-- ===== src/Parallel/Tasks.antt =====
-- The tasks of include/sl/exec/algo/sync/detail/parallel.hpp and the places that
-- the emission takes among them.
use serious_execution_librar.Prelude.{
  ℕ, zero, suc, ◌≡◌, not, ◌&&◌, List, [], ◌∷◌, ◌++◌, map, arith, ◌==◌, ltb, bit, count,
  count_if-append,
}
use serious_execution_librar.Parallel.{
  try_cancel, delete_this, initial, beside, try_cancel_beside_impl, call_delete_this,
  serialized_emit, serialized_try_cancel_beside, serialized_delete_this, Task, emit_task,
  try_cancel_beside_task, delete_this_task, execute, execute_all,
}

count-beside : (n e i : ℕ) → count i (beside n e) ≡ bit (ltb i n && not (i == e))
unfolding beside
count-beside zero e i = ground arith
count-beside (suc n) e i =
    ground (arith, count-beside n e i, count_if-append (λ x. x == i) (beside n e) (n ∷ []))

-- Let one connection's slot ask to cancel the others and then to delete, and let the emission's task
-- run before, between or after these two. All in all the handles of the others are cancelled, each
-- connection's once except that of the one that asked, and then the object is deleted, once and last.
pub execute_all_lem :
    (n e : ℕ) (before after : List Task)
    → before ++ after ≡ try_cancel_beside_task e ∷ delete_this_task ∷ []
    → ((execute_all n (before ++ emit_task ∷ after) initial).effects
        ≡ map try_cancel (beside n e) ++ delete_this ∷ [])
      × ((i : ℕ) → count i (beside n e) ≡ bit (ltb i n && not (i == e)))
unfolding execute_all execute serialized_emit serialized_try_cancel_beside serialized_delete_this
    try_cancel_beside_impl call_delete_this initial
execute_all_lem n e [] after h = (ground (arith, h), count-beside n e)
execute_all_lem n e (t ∷ []) after h = (ground (arith, h), count-beside n e)
execute_all_lem n e (t ∷ u ∷ []) after h = (ground (arith, h), count-beside n e)
execute_all_lem n e (t ∷ u ∷ v ∷ before) after h = absurd (cc)
