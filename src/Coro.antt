-- ===== src/Coro.antt =====
-- include/sl/exec/coro/detail.hpp, the result in the promise of a coroutine, which the promises of
-- generator.hpp, coroutine.hpp and async.hpp share.
pub mod Generator
pub mod Async
pub mod AsyncGen
pub mod Await
use serious_execution_librar.Prelude.{Option, none, some}
use serious_execution_librar.Slot.{Result, ok, err}

-- How a call ends: it returns, throws, or fails an assertion.
pub data Outcome (A X : Type 0) : Type 0 where
  returned : A → Outcome A X
  thrown : X → Outcome A X
  aborted : Outcome A X

-- `promise_result_mixin`, with `maybe_return_` as the argument and as part of what is returned.
module _ {R X : Type 0} where
  unfoldable pub return_value : R → Option (Result R X)
  return_value from = some (ok from)

  unfoldable pub unhandled_exception : X → Option (Result R X)
  unhandled_exception current_exception = some (err current_exception)

  unfoldable pub get_return : Option (Result R X) → Outcome (Result R X) X × Option (Result R X)
  get_return none = (aborted, none)
  get_return (some extracted) = (returned extracted, none)

  abbrev pub or_throw : Outcome (Result R X) X → Outcome R X
  or_throw (returned (ok r)) = returned r
  or_throw (returned (err x)) = thrown x
  or_throw (thrown x) = thrown x
  or_throw aborted = aborted

  unfoldable pub get_return_or_throw : Option (Result R X) → Outcome R X × Option (Result R X)
  unfolding get_return
  get_return_or_throw m = (or_throw (get_return m).0, (get_return m).1)

  -- The exception that `try_rethrow` throws, if any.
  unfoldable pub try_rethrow : Option (Result R X) → Option X
  try_rethrow (some (err x)) = some x
  try_rethrow m = none
