-- ===== src/Par/All/Tests.antt =====
-- A run of include/sl/exec/algo/tf/par/all.hpp with two inner slots, and its theorems at it.
use serious_execution_librar.Prelude.{
  ℕ, refl, ◌<◌, ◌≡◌, ◌⊎◌, true, some, List, [], ◌∷◌, arith, length, get_elem?,
}
use mathlib.Core.Option
use serious_execution_librar.Slot.{Completion, value}
use serious_execution_librar.Race.{finished, init, settle, trail}
use serious_execution_librar.Par.All.{
  All, passed_on, fails, collect, set_value_impl, end_last, on_value, ends_last, Reach, start,
  later, all_safe, all_outcome,
}

-- Slot 1 gives 6, then slot 0 gives 5 and is the last.
abbrev both_done : All ℕ ℕ
both_done = end_last 2 0 (set_value_impl 2 0 5 (set_value_impl 2 1 6 init))

Reach-done : Reach 2 both_done
unfolding init settle trail set_value_impl end_last
Reach-done =
    later (later (later start (on_value 1 6 (omega arith) refl)) (on_value 0 5 (omega arith) refl))
      (ends_last 0 (value 5) (omega arith) refl)

all_finished : (i : ℕ) → i < 2 → both_done.pcs i ≡ finished
unfolding init settle trail set_value_impl end_last
all_finished i b = ground arith

in_order : both_done.calls ≡ some (value (5 ∷ 6 ∷ [])) ∷ []
unfolding init settle trail set_value_impl end_last collect
    serious_execution_librar.Par.All.append_result
in_order = refl

all_outcome_example :
    (length both_done.calls ≡ 1)
    × (both_done.deletes ≡ 1)
    × (((j : ℕ) × (x : Completion ℕ ℕ) × (both_done.inputs j ≡ some x)
          × (both_done.calls ≡ passed_on j x ∷ [])
          × (fails x ≡ true)
          × (both_done.cancels ≡ j ∷ []))
        ⊎ ((vs : List ℕ) × (both_done.calls ≡ some (value vs) ∷ [])
            × (length vs ≡ 2)
            × ((i : ℕ) → i < 2 → Option.map value (get_elem? vs i) ≡ both_done.inputs i)))
all_outcome_example = all_outcome (omega arith) (omega arith) Reach-done all_finished
