-- ===== src/Parallel.antt =====
-- include/sl/exec/algo/sync/detail/parallel.hpp, `parallel_connection`: its three tasks, which the serial
-- executor runs one at a time.
pub mod Tasks
mod Tests
use serious_execution_librar.Prelude.{
  ℕ, zero, suc, ◌+◌, Bool, true, false, Option, none, some, List, [], ◌∷◌, ◌++◌, map, ◌==◌,
  if◌then◌else◌,
}

-- What the tasks do outside: `try_cancel` of a connection's cancel handle, and `delete_this_()`.
pub data Effect : Type 0 where
  try_cancel : ℕ → Effect
  delete_this : Effect

-- `state_`, with the effects so far. `cancel_handles` says whether the handles have arrived.
pub record State : Type 0 where
  pub cancel_handles : Bool
  pub cancel_request : Option ℕ
  pub delete_requested : Bool
  pub effects : List Effect

unfoldable pub initial : State
initial = record {
  cancel_handles = false;
  cancel_request = none;
  delete_requested = false;
  effects = [];
}

-- The indices `Is` below `n` that are not excluded.
unfoldable pub beside : ℕ → ℕ → List ℕ
beside zero excluded_index = []
beside (suc n) excluded_index =
    let rest = beside n excluded_index in if n == excluded_index then rest else rest ++ n ∷ []

unfoldable pub try_cancel_beside_impl : ℕ → ℕ → State → State
unfolding beside
try_cancel_beside_impl n excluded_index s = record s {
  effects = s.effects ++ map try_cancel (beside n excluded_index);
}

unfoldable pub call_delete_this : State → State
call_delete_this s = record s { effects = s.effects ++ delete_this ∷ [] }

unfoldable pub serialized_emit : ℕ → State → State
unfolding try_cancel_beside_impl call_delete_this
serialized_emit n s =
    let emitted : State = record s { cancel_handles = true } in
    let cancelled : State = elim s.cancel_request [
      | none ↦ emitted
      | some excluded_index ↦ record (try_cancel_beside_impl n excluded_index emitted) {
        cancel_request = none;
      }
    ] in
    if s.delete_requested then call_delete_this cancelled else cancelled

unfoldable pub serialized_try_cancel_beside : ℕ → ℕ → State → State
unfolding try_cancel_beside_impl
serialized_try_cancel_beside n excluded_index s = elim s.cancel_request [
  | some earlier ↦ s
  | none ↦
      if s.cancel_handles
      then try_cancel_beside_impl n excluded_index s
      else record s { cancel_request = some excluded_index }
]

unfoldable pub serialized_delete_this : State → State
unfolding call_delete_this
serialized_delete_this s =
    if s.cancel_handles then call_delete_this s else record s { delete_requested = true }

pub data Task : Type 0 where
  emit_task : Task
  try_cancel_beside_task : ℕ → Task
  delete_this_task : Task

unfoldable pub execute : ℕ → Task → State → State
unfolding serialized_emit serialized_try_cancel_beside serialized_delete_this
execute n emit_task s = serialized_emit n s
execute n (try_cancel_beside_task excluded_index) s =
    serialized_try_cancel_beside n excluded_index s
execute n delete_this_task s = serialized_delete_this s

unfoldable pub execute_all : ℕ → List Task → State → State
unfolding execute
execute_all n [] s = s
execute_all n (t ∷ ts) s = execute_all n ts (execute n t s)
