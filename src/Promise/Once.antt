-- ===== src/Promise/Once.antt =====
-- Sequences of uses of the promise of include/sl/exec/algo/make/contract.hpp.
use serious_execution_librar.Prelude.{◌≡◌, refl, ap, false, List, [], ◌∷◌}
use serious_execution_librar.Slot.{Completion, value, error, null, fulfill_slot}
use serious_execution_librar.Promise.{
  Promise, new_promise, set_result, set_value, set_error, set_null, finalize,
}

-- A use of a promise, and what it does.
pub data Use (V E : Type 0) : Type 0 where
  use_value : V → Use V E
  use_error : E → Use V E
  use_null : Use V E

module _ {V E : Type 0} where
  abbrev pub meant : Use V E → Completion V E
  meant (use_value v) = value v
  meant (use_error e) = error e
  meant use_null = null

  pub apply : Use V E → Promise V E → Promise V E
  unfolding set_value set_error set_null
  apply (use_value v) p = set_value v p
  apply (use_error e) p = set_error e p
  apply use_null p = set_null p

  pub apply_all : List (Use V E) → Promise V E → Promise V E
  unfolding apply
  apply_all [] p = p
  apply_all (u ∷ us) p = apply_all us (apply u p)

  -- What the slot should be completed with: the first use, or null if there is none.
  abbrev pub first : List (Use V E) → Completion V E
  first [] = null
  first (u ∷ us) = meant u

  used : Completion V E → Promise V E
  used x = record { has_callback = false; calls = x ∷ []; deletes = 1 }

  apply-used : (x : Completion V E) (u : Use V E) → apply u (used x) ≡ used x
  unfolding apply used set_value set_error set_null set_result
  apply-used x (use_value v) = refl
  apply-used x (use_error e) = refl
  apply-used x use_null = refl

  apply_all-used : (x : Completion V E) (us : List (Use V E)) → apply_all us (used x) ≡ used x
  unfolding apply_all
  apply_all-used x [] = refl
  apply_all-used x (u ∷ us) = rw (apply-used x u) (apply_all-used x us)

  apply-new_promise : (u : Use V E) → apply u new_promise ≡ used (meant u)
  unfolding apply used set_value set_error set_null set_result new_promise fulfill_slot
  apply-new_promise (use_value v) = refl
  apply-new_promise (use_error e) = refl
  apply-new_promise use_null = refl

  apply_all-new_promise :
      (u : Use V E) (us : List (Use V E)) → apply_all (u ∷ us) new_promise ≡ used (meant u)
  unfolding apply_all
  apply_all-new_promise u us = rw (apply-new_promise u) (apply_all-used (meant u) us)

  -- A new promise that is used any number of times and then destroyed has completed its slot exactly
  -- once, with its first use, or with null if it was not used, and its callback is deleted exactly once.
  pub finalize_lem :
      (uses : List (Use V E))
      → ((finalize (apply_all uses new_promise)).calls ≡ first uses ∷ [])
        × ((finalize (apply_all uses new_promise)).deletes ≡ 1)
  unfolding finalize apply_all new_promise used fulfill_slot
  finalize_lem [] = (refl, refl)
  finalize_lem (u ∷ us) =
      let e = apply_all-new_promise u us in
      (
        ap (λ (p : Promise V E). (finalize p).calls) e,
        ap (λ (p : Promise V E). (finalize p).deletes) e,
      )
