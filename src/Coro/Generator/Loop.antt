-- ===== src/Coro/Generator/Loop.antt =====
-- The loops over a generator of include/sl/exec/coro/generator.hpp.
use serious_execution_librar.Prelude.{
  ◌∙◌, ℕ, zero, suc, ◌<◌, ◌≡◌, refl, none, some, List, [], ◌∷◌, ◌++◌, arith, length, append_assoc,
  append-nil,
}
use serious_execution_librar.Slot.{Result, ok, err}
use serious_execution_librar.Coro.{Outcome, returned, thrown, or_throw}
use serious_execution_librar.Coro.Generator.{
  Body, yields, returns, throws, Generator, get_return_object, begin, for_each, drain, result,
  result_or_throw,
}

-- What a body yields, and how it ends.
abbrev pub all_yields : {Y R X : Type 0} → Body Y R X → List Y
all_yields (yields y rest) = y ∷ all_yields rest
all_yields (returns r) = []
all_yields (throws x) = []

abbrev pub ending : {Y R X : Type 0} → Body Y R X → Result R X
ending (yields y rest) = ending rest
ending (returns r) = ok r
ending (throws x) = err x

-- How a loop over the iterators ends then.
abbrev pub rethrown : {R X : Type 0} → Result R X → Outcome Unit X
rethrown (ok r) = returned tt
rethrown (err x) = thrown x

module _ {Y R X : Type 0} where
  abbrev over : Body Y R X → Generator Y R X
  over body = record { frame = none; maybe_yield = none; maybe_return = some (ending body) }

  for_each-begin :
      (body : Body Y R X) (fuel : ℕ) (values : List Y)
      → length (all_yields body) < fuel
      → for_each fuel values (begin (get_return_object body))
        ≡ some (values ++ all_yields body, rethrown (ending body), over body)
  unfolding for_each begin get_return_object
  for_each-begin body zero values h = absurd (omega arith)
  for_each-begin (returns r) (suc fuel) values h = simp append-nil
  for_each-begin (throws x) (suc fuel) values h = simp append-nil
  for_each-begin (yields y rest) (suc fuel) values h =
      for_each-begin rest fuel (values ++ y ∷ []) (omega arith) ∙ simp append_assoc

  drain-from :
      (body : Body Y R X) (fuel : ℕ) (values : List Y)
      → length (all_yields body) < fuel
      → drain fuel values (get_return_object body)
        ≡ some (values ++ all_yields body, returned tt, over body)
  unfolding drain get_return_object
  drain-from body zero values h = absurd (omega arith)
  drain-from (returns r) (suc fuel) values h = simp append-nil
  drain-from (throws x) (suc fuel) values h = simp append-nil
  drain-from (yields y rest) (suc fuel) values h =
      drain-from rest fuel (values ++ y ∷ []) (omega arith) ∙ simp append_assoc

  -- With more fuel than the body yields, a loop over the iterators of a generator collects what the body
  -- yields, in order. Where the body returns, the loop ends and `result` gives what is returned; where it
  -- throws, the loop throws that exception.
  pub for_each_lem :
      (body : Body Y R X) (fuel : ℕ)
      → length (all_yields body) < fuel
      → (g : Generator Y R X) × (for_each fuel [] (begin (get_return_object body))
          ≡ some (all_yields body, rethrown (ending body), g))
        × (result g ≡ returned (ending body))
  unfolding result
  for_each_lem body fuel h = (over body, for_each-begin body fuel [] h, refl)

  -- With more fuel than the body yields, a loop over `next` collects what the body yields, in order, and
  -- ends without an exception. Then `result` gives what the body returns or throws, and
  -- `result_or_throw` returns or throws it.
  pub drain_lem :
      (body : Body Y R X) (fuel : ℕ)
      → length (all_yields body) < fuel
      → (g : Generator Y R X) × (drain fuel [] (get_return_object body)
          ≡ some (all_yields body, returned tt, g))
        × (result g ≡ returned (ending body))
        × (result_or_throw g ≡ or_throw (returned (ending body)))
  unfolding result result_or_throw
  drain_lem body fuel h = (over body, drain-from body fuel [] h, refl, refl)
