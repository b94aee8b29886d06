-- ===== src/Par/Select/Tests.antt =====
-- A run of include/sl/exec/algo/sync/select.hpp with two cases, and its theorems at it.
use serious_execution_librar.Prelude.{
  ℕ, refl, ◌+◌, ◌<◌, ◌≡◌, ◌≢◌, ◌⊎◌, some, [], ◌∷◌, arith, length,
}
use serious_execution_librar.Slot.{value, error, null}
use serious_execution_librar.Race.{finished, init, claim_for, skip, count, trail}
use serious_execution_librar.Par.Select.{
  Select, set_value_skip_done, set_null_impl, end_value, on_claim, on_skip, on_null, ends_value,
  Reach, start, later, select_outcome,
}

abbrev functor : ℕ → ℕ → ℕ
functor index v = 10 + v

-- A channel claims the flag for case 0 and gives it 5, case 1 is cancelled.
abbrev both_done : Select ℕ ℕ
both_done =
    end_value functor 2 0
      (set_null_impl functor 2 1 (set_value_skip_done functor 0 5 (claim_for 0 init)))

Reach-done : Reach functor 2 both_done
unfolding init claim_for skip count trail set_value_skip_done set_null_impl end_value
Reach-done =
    later
      (later
        (later (later start (on_claim 0 (omega arith) refl refl)) (on_skip 0 5 (omega arith) refl))
        (on_null 1 (omega arith) refl))
      (ends_value 0 (omega arith) refl)

all_finished : (i : ℕ) → i < 2 → both_done.pcs i ≡ finished
unfolding init claim_for skip count trail set_value_skip_done set_null_impl end_value
all_finished i b = ground arith

select_outcome_example :
    (length both_done.calls ≡ 1)
    × (both_done.deletes ≡ 1)
    × (((j : ℕ) × (v : ℕ) × (both_done.inputs j ≡ some (value v))
          × (both_done.calls ≡ value (functor j v) ∷ [])
          × (both_done.cancels ≡ j ∷ []))
        ⊎ (((i : ℕ) (v : ℕ) → i < 2 → both_done.inputs i ≢ some (value v))
            × ((both_done.calls ≡ error tt ∷ []) ⊎ (both_done.calls ≡ null ∷ []))))
select_outcome_example = select_outcome functor (omega arith) (omega arith) Reach-done all_finished
