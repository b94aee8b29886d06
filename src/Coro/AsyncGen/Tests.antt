-- ===== src/Coro/AsyncGen/Tests.antt =====
-- Two consumers of a generator of include/sl/exec/coro/async_gen.hpp.
use serious_execution_librar.Prelude.{ℕ, ◌+◌, ◌≡◌, refl, none, some, [], ◌∷◌, arith}
use serious_execution_librar.Slot.{ok, err}
use serious_execution_librar.Coro.{returned, thrown}
use serious_execution_librar.Coro.Generator.{Body, yields, throws}
use serious_execution_librar.Coro.AsyncGen.{AsyncGen, get_return_object, co_await, consume, result}
use serious_execution_librar.Coro.AsyncGen.Turns.{consume_lem}

abbrev failing : Body ℕ ℕ ℕ
failing = yields 1 (yields 2 (throws 7))

consume_lem_example :
    (g : AsyncGen ℕ ℕ ℕ) × (consume (λ i. i + 10) 3 0 [] (get_return_object failing)
      ≡ some ((10, 1) ∷ (11, 2) ∷ [], 12, thrown 7, g))
    × (result g ≡ returned (err 7))
consume_lem_example = consume_lem (λ i. i + 10) failing 3 (omega arith)

-- A generator that is done must not be awaited.
awaited_late :
    co_await {Y = ℕ} {R = ℕ} {X = ℕ} 0
      (record { frame = none; maybe_yield = none; maybe_return = some (ok 1); consumer = none })
    ≡ none
unfolding co_await
awaited_late = refl
