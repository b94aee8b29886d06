-- ===== src/Coro/AsyncGen.antt =====
-- include/sl/exec/coro/async_gen.hpp: a generator that coroutines await, each transfer of control
-- going to the frame that is named. The body of the generator is code of its user: a parameter.
pub mod Turns
mod Tests
use serious_execution_librar.Prelude.{ℕ, zero, suc, ◌+◌, Option, none, some, List, [], ◌∷◌, ◌++◌}
use serious_execution_librar.Slot.{Result}
use serious_execution_librar.Coro.{
  Outcome, returned, thrown, aborted, return_value, unhandled_exception, get_return, try_rethrow,
}
use serious_execution_librar.Coro.Generator.{Body, yields, returns, throws}

-- `frame` is what is left of the body, none once it is done. The frames of the consumers are numbers.
pub record AsyncGen (Y R X : Type 0) : Type 0 where
  pub frame : Option (Body Y R X)
  pub maybe_yield : Option Y
  pub maybe_return : Option (Result R X)
  pub consumer : Option ℕ

module _ {Y R X : Type 0} where
  -- A call, suspended before the body, with a null `consumer`.
  pub get_return_object : Body Y R X → AsyncGen Y R X
  get_return_object body = record {
    frame = some body;
    maybe_yield = none;
    maybe_return = none;
    consumer = none;
  }

  -- `next_awaiter::await_suspend`.
  pub await_suspend : ℕ → AsyncGen Y R X → AsyncGen Y R X
  await_suspend consumer g = record g { consumer = some consumer }

  -- The resumption of the producer, up to `co_yield` or its end: none where it is done already, and at
  -- the end where a value is left, which `final_suspend` asserts against.
  pub resume : AsyncGen Y R X → Option (AsyncGen Y R X)
  unfolding return_value unhandled_exception
  resume g = elim g.frame [
    | none ↦ none
    | some (yields y rest) ↦ some (record g { frame = some rest; maybe_yield = some y })
    | some (returns r) ↦ elim g.maybe_yield [
      | some y ↦ none
      | none ↦ some (record g { frame = none; maybe_return = return_value r })
    ]
    | some (throws x) ↦ elim g.maybe_yield [
      | some y ↦ none
      | none ↦ some (record g { frame = none; maybe_return = unhandled_exception x })
    ]
  ]

  -- `next_awaiter::await_resume`, by `get_yield_or_throw`.
  pub await_resume : AsyncGen Y R X → Outcome (Option Y) X × AsyncGen Y R X
  unfolding try_rethrow
  await_resume g = elim (try_rethrow g.maybe_return) [
    | some x ↦ (thrown x, g)
    | none ↦ (returned g.maybe_yield, record g { maybe_yield = none })
  ]

  -- `co_await` of the generator in the frame `consumer`: the frame that `yield_awaiter` resumes, and what
  -- its `await_resume` gives. None where a frame must not be resumed.
  pub co_await : ℕ → AsyncGen Y R X → Option (ℕ × Outcome (Option Y) X × AsyncGen Y R X)
  unfolding await_suspend resume await_resume
  co_await consumer g = elim (resume (await_suspend consumer g)) [
    | none ↦ none
    | some h ↦ elim h.consumer [
      | none ↦ none
      | some back ↦ some (back, (await_resume h).0, (await_resume h).1)
    ]
  ]

  pub result : AsyncGen Y R X → Outcome (Result R X) X
  unfolding get_return
  result g = elim g.frame [ some body ↦ aborted | none ↦ (get_return g.maybe_return).0 ]

  -- Awaits in turn, the one at `i` in the frame `consumers i`, until one gives no value: with the frames
  -- that went on with a value, the one that saw the end, what it saw, and the generator then.
  pub consume :
      (ℕ → ℕ)
      → ℕ
      → ℕ
      → List (ℕ × Y)
      → AsyncGen Y R X
      → Option (List (ℕ × Y) × ℕ × Outcome Unit X × AsyncGen Y R X)
  unfolding co_await
  consume consumers zero i seen g = none
  consume consumers (suc fuel) i seen g = elim (co_await (consumers i) g) [
    | none ↦ none
    | some (back, returned (some y), h) ↦ consume consumers fuel (i + 1) (seen ++ (back, y) ∷ []) h
    | some (back, returned none, h) ↦ some (seen, back, returned tt, h)
    | some (back, thrown x, h) ↦ some (seen, back, thrown x, h)
    | some (back, aborted, h) ↦ none
  ]
