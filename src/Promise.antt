-- ===== src/Promise.antt =====
-- include/sl/exec/algo/make/contract.hpp, `promise` and `promise_callback`: the end of a contract that
-- completes it.
pub mod Once
mod Tests
use serious_execution_librar.Prelude.{
  ℕ, ◌+◌, Bool, true, false, Option, none, some, List, [], ◌∷◌, ◌++◌, if◌then◌else◌,
}
use serious_execution_librar.Slot.{Result, ok, err, Completion, fulfill_slot}

-- `callback_` is not null; the completions of the slot, through the callback; how often the callback was deleted.
pub record Promise (V E : Type 0) : Type 0 where
  pub has_callback : Bool
  pub calls : List (Completion V E)
  pub deletes : ℕ

module _ {V E : Type 0} where
  pub new_promise : Promise V E
  new_promise = record { has_callback = true; calls = []; deletes = 0 }

  -- `set_result`, for a promise that may have been used before: `ASSERT_VAL` is then false.
  pub set_result : Option (Result V E) → Promise V E → Promise V E
  set_result maybe_result p =
      if p.has_callback
      then record {
        has_callback = false;
        calls = p.calls ++ fulfill_slot maybe_result ∷ [];
        deletes = p.deletes + 1;
      }
      else p

  pub set_value : V → Promise V E → Promise V E
  unfolding set_result
  set_value v p = set_result (some (ok v)) p

  pub set_error : E → Promise V E → Promise V E
  unfolding set_result
  set_error e p = set_result (some (err e)) p

  pub set_null : Promise V E → Promise V E
  unfolding set_result
  set_null p = set_result none p

  -- The finalizer.
  pub finalize : Promise V E → Promise V E
  finalize p =
      if p.has_callback
      then record {
        has_callback = false;
        calls = p.calls ++ fulfill_slot none ∷ [];
        deletes = p.deletes + 1;
      }
      else p
