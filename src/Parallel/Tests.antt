-- ===== src/Parallel/Tests.antt =====
-- A run of include/sl/exec/algo/sync/detail/parallel.hpp.
use serious_execution_librar.Prelude.{◌≡◌, refl, [], ◌∷◌}
use serious_execution_librar.Parallel.{
  try_cancel, delete_this, initial, beside, emit_task, try_cancel_beside_task, delete_this_task,
  execute_all,
}

beside_1 : beside 3 1 ≡ 0 ∷ 2 ∷ []
unfolding beside
beside_1 = refl

emitted_between :
    (execute_all 3 (try_cancel_beside_task 1 ∷ emit_task ∷ delete_this_task ∷ []) initial).effects
    ≡ try_cancel 0 ∷ try_cancel 2 ∷ delete_this ∷ []
unfolding execute_all initial beside
emitted_between = refl
