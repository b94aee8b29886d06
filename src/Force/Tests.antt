-- ===== src/Force/Tests.antt =====
-- A run of include/sl/exec/algo/emit/force.hpp.
use serious_execution_librar.Prelude.{ℕ, ◌≤◌, ◌≡◌, ◌⊎◌, refl, Option, some, [], ◌∷◌, length}
use serious_execution_librar.Slot.{Result, ok}
use serious_execution_librar.Force.{
  produced, consumed, Force, init, complete, store, exchange, load, swap, take, stores, exchanges,
  loads, swaps, takes, Reach, start, later,
}
use serious_execution_librar.Force.Handover.{force_safe, force_outcome}

abbrev five : Option (Result ℕ ℕ)
five = some (ok 5)

-- The result arrives between the load and the exchange of the other thread.
abbrev handed_over : Force ℕ ℕ
handed_over = take (swap (exchange (store five (load init))))

Reach-handed_over : Reach five handed_over
unfolding init complete store exchange load swap take
Reach-handed_over =
    later
      (later (later (later (later start (loads refl)) (stores refl)) (exchanges refl)) (swaps refl))
      (takes refl)

force_safe_example :
    (length handed_over.calls ≤ 1)
    × (handed_over.deletes ≡ length handed_over.calls)
    × ((handed_over.deletes ≡ 0)
        ⊎ ((handed_over.producer ≡ produced) × (handed_over.consumer ≡ consumed)))
force_safe_example = force_safe five Reach-handed_over

both_returned : (handed_over.producer ≡ produced) × (handed_over.consumer ≡ consumed)
unfolding init complete store exchange load swap take
both_returned = (refl, refl)

force_outcome_example : (handed_over.calls ≡ five ∷ []) × (handed_over.deletes ≡ 1)
force_outcome_example = force_outcome five Reach-handed_over both_returned.0 both_returned.1
