-- ===== src/Par/Any/Tests.antt =====
-- A run of include/sl/exec/algo/tf/par/any.hpp with two inner slots, and its theorems at it.
use serious_execution_librar.Prelude.{ℕ, refl, ◌<◌, ◌≡◌, ◌≢◌, ◌⊎◌, some, [], ◌∷◌, arith, length}
use serious_execution_librar.Slot.{Completion, value}
use serious_execution_librar.Race.{finished, init, lead, count, trail}
use serious_execution_librar.Par.Any.{
  Any, set_value_impl, set_error_impl, end_value, on_value, on_error, ends_value, Reach, start,
  later, any_outcome,
}

-- Slot 0 gives 5, slot 1 gives error 7, then the handler of slot 0 counts.
abbrev both_done : Any ℕ ℕ
both_done = end_value 2 0 (set_error_impl 2 1 7 (set_value_impl 0 5 init))

Reach-done : Reach 2 both_done
unfolding init lead count trail set_value_impl set_error_impl end_value
Reach-done =
    later (later (later start (on_value 0 5 (omega arith) refl)) (on_error 1 7 (omega arith) refl))
      (ends_value 0 (omega arith) refl)

all_finished : (i : ℕ) → i < 2 → both_done.pcs i ≡ finished
unfolding init lead count trail set_value_impl set_error_impl end_value
all_finished i b = ground arith

any_outcome_example :
    (length both_done.calls ≡ 1)
    × (both_done.deletes ≡ 1)
    × (((j : ℕ) × (v : ℕ) × (both_done.inputs j ≡ some (value v))
          × (both_done.calls ≡ value v ∷ [])
          × (both_done.cancels ≡ j ∷ []))
        ⊎ (((i : ℕ) (v : ℕ) → i < 2 → both_done.inputs i ≢ some (value v))
            × ((j : ℕ) × (x : Completion ℕ ℕ) × (both_done.inputs j ≡ some x)
                × (both_done.calls ≡ x ∷ []))))
any_outcome_example = any_outcome (omega arith) (omega arith) Reach-done all_finished
