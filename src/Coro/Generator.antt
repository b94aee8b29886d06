-- ===== src/Coro/Generator.antt =====
-- include/sl/exec/coro/generator.hpp. The body of a generator is code of its user: a parameter, as the
-- tree of what it does next.
pub mod Loop
mod Tests
use serious_execution_librar.Prelude.{
  ℕ, zero, suc, Bool, true, false, Option, none, some, List, [], ◌∷◌, ◌++◌,
}
use serious_execution_librar.Slot.{Result, ok, err}
use serious_execution_librar.Coro.{
  Outcome, returned, thrown, aborted, return_value, unhandled_exception, get_return,
  get_return_or_throw, try_rethrow,
}

pub data Body (Y R X : Type 0) : Type 0 where
  yields : Y → Body Y R X → Body Y R X
  returns : R → Body Y R X
  throws : X → Body Y R X

-- A generator and its promise. `frame` is what is left of the body, none once it is done.
pub record Generator (Y R X : Type 0) : Type 0 where
  pub frame : Option (Body Y R X)
  pub maybe_yield : Option Y
  pub maybe_return : Option (Result R X)

-- `self` says whether `self_` is set.
pub record Iterator (Y : Type 0) : Type 0 where
  pub maybe_value : Option Y
  pub self : Bool

-- `advance` of an iterator that has `self_`: the iterator, unless `next_or_throw` throws.
abbrev moved : {Y X : Type 0} → Outcome (Option Y) X → Outcome (Iterator Y) X
moved (returned (some y)) = returned (record { maybe_value = some y; self = true })
moved (returned none) = returned (record { maybe_value = none; self = false })
moved (thrown x) = thrown x
moved aborted = aborted

module _ {Y R X : Type 0} where
  -- The generator that a call of the coroutine gives, suspended before its body.
  pub get_return_object : Body Y R X → Generator Y R X
  get_return_object body = record { frame = some body; maybe_yield = none; maybe_return = none }

  pub yield_value : Y → Generator Y R X → Generator Y R X
  yield_value from g = record g { maybe_yield = some from }

  -- `handle.resume()`, up to the next suspension: a `co_yield` or the final one.
  pub resume : Generator Y R X → Option (Generator Y R X)
  unfolding yield_value return_value unhandled_exception
  resume g = elim g.frame [
    | none ↦ none
    | some (yields y rest) ↦ some (yield_value y (record g { frame = some rest }))
    | some (returns r) ↦ some (record g { frame = none; maybe_return = return_value r })
    | some (throws x) ↦ some (record g { frame = none; maybe_return = unhandled_exception x })
  ]

  -- With its assertion on entry; the one at the end holds by `resume`.
  pub resume_impl : Generator Y R X → Option (Generator Y R X)
  unfolding resume
  resume_impl g = elim g.maybe_yield [ none ↦ resume g | some y ↦ none ]

  pub get_yield : Generator Y R X → Option Y × Generator Y R X
  get_yield g = (g.maybe_yield, record g { maybe_yield = none })

  pub get_yield_or_throw : Generator Y R X → Outcome (Option Y) X × Generator Y R X
  unfolding get_yield try_rethrow
  get_yield_or_throw g = elim (try_rethrow g.maybe_return) [
    | some x ↦ (thrown x, g)
    | none ↦ (returned (get_yield g).0, (get_yield g).1)
  ]

  pub next : Generator Y R X → Outcome (Option Y) X × Generator Y R X
  unfolding resume_impl get_yield
  next g = elim (resume_impl g) [
    | none ↦ (aborted, g)
    | some h ↦ (returned (get_yield h).0, (get_yield h).1)
  ]

  pub next_or_throw : Generator Y R X → Outcome (Option Y) X × Generator Y R X
  unfolding resume_impl get_yield_or_throw
  next_or_throw g = elim (resume_impl g) [ none ↦ (aborted, g) | some h ↦ get_yield_or_throw h ]

  pub result : Generator Y R X → Outcome (Result R X) X
  unfolding get_return
  result g = elim g.frame [ some body ↦ aborted | none ↦ (get_return g.maybe_return).0 ]

  pub result_or_throw : Generator Y R X → Outcome R X
  unfolding get_return_or_throw
  result_or_throw g = elim g.frame [
    | some body ↦ aborted
    | none ↦ (get_return_or_throw g.maybe_return).0
  ]

  pub advance : Iterator Y → Generator Y R X → Outcome (Iterator Y) X × Generator Y R X
  unfolding next_or_throw
  advance it g = elim it.self [
    | true ↦ (moved (next_or_throw g).0, (next_or_throw g).1)
    | false ↦ (aborted, g)
  ]

  pub begin : Generator Y R X → Outcome (Iterator Y) X × Generator Y R X
  unfolding advance
  begin g = advance (record { maybe_value = none; self = true }) g

  -- `for (auto& value : generator)`, which collects the values: with them, how the loop ends and the
  -- generator then. None when the fuel runs out.
  pub for_each :
      ℕ
      → List Y
      → Outcome (Iterator Y) X × Generator Y R X
      → Option (List Y × Outcome Unit X × Generator Y R X)
  unfolding advance
  for_each fuel values (thrown x, g) = some (values, thrown x, g)
  for_each fuel values (aborted, g) = some (values, aborted, g)
  for_each zero values (returned it, g) = none
  for_each (suc fuel) values (returned it, g) = elim it.self [
    | false ↦ some (values, returned tt, g)
    | true ↦ elim it.maybe_value [
      | none ↦ some (values, aborted, g)
      | some y ↦ for_each fuel (values ++ y ∷ []) (advance it g)
    ]
  ]

  -- `while (auto value = generator.next())`, likewise.
  pub drain : ℕ → List Y → Generator Y R X → Option (List Y × Outcome Unit X × Generator Y R X)
  unfolding next
  drain zero values g = none
  drain (suc fuel) values g = elim (next g).0 [
    | thrown x ↦ some (values, thrown x, (next g).1)
    | aborted ↦ some (values, aborted, (next g).1)
    | returned none ↦ some (values, returned tt, (next g).1)
    | returned (some y) ↦ drain fuel (values ++ y ∷ []) (next g).1
  ]
