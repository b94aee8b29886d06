-- ===== src/Coro/AsyncGen/Turns.antt =====
-- Consumers of include/sl/exec/coro/async_gen.hpp in turn.
use serious_execution_librar.Prelude.{
  ℕ, zero, suc, ◌+◌, ◌<◌, ◌≡◌, refl, ◌∙◌, Option, none, some, List, [], ◌∷◌, ◌++◌, length,
  append_assoc, append-nil, arith,
}
use serious_execution_librar.Coro.{returned, return_value, unhandled_exception}
use serious_execution_librar.Coro.Generator.{Body, yields, returns, throws}
use serious_execution_librar.Coro.Generator.Loop.{all_yields, ending, rethrown}
use serious_execution_librar.Coro.AsyncGen.{AsyncGen, get_return_object, consume, result}

-- Each value with the consumer whose turn it is, from the turn `i`.
abbrev pub in_turn : {Y : Type 0} → (ℕ → ℕ) → ℕ → List Y → List (ℕ × Y)
in_turn consumers i [] = []
in_turn consumers i (y ∷ ys) = (consumers i, y) ∷ in_turn consumers (i + 1) ys

module _ {Y R X : Type 0} (consumers : ℕ → ℕ) where
  abbrev suspended : Body Y R X → Option ℕ → AsyncGen Y R X
  suspended body consumer = record (get_return_object body) { consumer = consumer }

  abbrev over : Body Y R X → ℕ → AsyncGen Y R X
  over body i = record {
    frame = none;
    maybe_yield = none;
    maybe_return = some (ending body);
    consumer = some (consumers (i + length (all_yields body)));
  }

  consume-suspended :
      (body : Body Y R X) (fuel i : ℕ) (seen : List (ℕ × Y)) (consumer : Option ℕ)
      → length (all_yields body) < fuel
      → consume consumers fuel i seen (suspended body consumer)
        ≡ some (
          seen ++ in_turn consumers i (all_yields body),
          consumers (i + length (all_yields body)),
          rethrown (ending body),
          over body i,
        )
  unfolding consume get_return_object return_value unhandled_exception
  consume-suspended body zero i seen consumer h = absurd (omega arith)
  consume-suspended (returns r) (suc fuel) i seen consumer h =
      let e : i + 0 ≡ i = omega arith in rw (append-nil seen, e)
  consume-suspended (throws x) (suc fuel) i seen consumer h =
      let e : i + 0 ≡ i = omega arith in rw (append-nil seen, e)
  consume-suspended (yields y rest) (suc fuel) i seen consumer h =
      let e : i + 1 + length (all_yields rest) ≡ i + suc (length (all_yields rest)) = omega arith in
      consume-suspended rest fuel (i + 1) (seen ++ (consumers i, y) ∷ []) (some (consumers i))
        (omega arith)
      ∙ rw (
        append_assoc seen ((consumers i, y) ∷ []) (in_turn consumers (i + 1) (all_yields rest)),
        e,
      )

  -- With more fuel than the body yields, consumers that await the generator in turn get its values in
  -- order, each the one that its own await was for. The next of them sees the end: no value where the body
  -- returned, its exception where it threw. Then `result` gives what the body returned or threw.
  pub consume_lem :
      (body : Body Y R X) (fuel : ℕ)
      → length (all_yields body) < fuel
      → (g : AsyncGen Y R X) × (consume consumers fuel 0 [] (get_return_object body)
          ≡ some (
            in_turn consumers 0 (all_yields body),
            consumers (length (all_yields body)),
            rethrown (ending body),
            g,
          ))
        × (result g ≡ returned (ending body))
  unfolding result get_return_object
  consume_lem body fuel h =
      let e : 0 + length (all_yields body) ≡ length (all_yields body) = omega arith in
      (over body 0, consume-suspended body fuel 0 [] none h ∙ rw e, refl)
