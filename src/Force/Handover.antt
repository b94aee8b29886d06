-- ===== src/Force/Handover.antt =====
-- The two threads of include/sl/exec/algo/emit/force.hpp and the result that they hand over.
use serious_execution_librar.Prelude.{
  ◌≤◌, ◌≡◌, ◌≢◌, ◌⊎◌, inl, inr, refl, Option, [], ◌∷◌, arith, length,
}
use serious_execution_librar.Slot.{Result}
use serious_execution_librar.Force.{
  Word, state_empty, callback, state_result, to_store, produced, Consumer, to_load, to_swap,
  to_take, consumed, Force, init, complete, store, exchange, load, swap, take, Step, stores,
  exchanges, loads, swaps, takes, Reach, start, later,
}

module _ {V E : Type 0} (result : Option (Result V E)) where
  -- What the word says of the two threads, and who has been called.
  abbrev Untouched : Force V E → Type 0
  Untouched s = (s.calls ≡ []) × (s.deletes ≡ 0)

  abbrev Complete : Force V E → Type 0
  Complete s = (s.calls ≡ result ∷ []) × (s.deletes ≡ 1)

  record Inv (s : Force V E) : Type 0 where
    stored : s.producer ≢ to_store → s.maybe_result ≡ result
    empty_word :
        s.state ≡ state_empty
        → (s.producer ≢ produced) × (s.consumer ≢ to_take) × (s.consumer ≢ consumed) × Untouched s
    callback_word :
        s.state ≡ callback → (s.producer ≢ produced) × (s.consumer ≡ consumed) × Untouched s
    result_word : s.state ≡ state_result → s.producer ≡ produced
    taken : s.state ≡ state_result → s.consumer ≡ consumed → Complete s
    untaken : s.state ≡ state_result → s.consumer ≢ consumed → Untouched s

  Step-Inv : {s t : Force V E} → Step result s t → Inv s → Inv t
  unfolding store exchange load swap take complete
  Step-Inv {s} (stores e) v = ground arith
  Step-Inv {s} (exchanges e) v = ground arith
  Step-Inv {s} (loads e) v = ground arith
  Step-Inv {s} (swaps e) v = ground arith
  Step-Inv {s} (takes e) v = ground arith

  Reach-Inv : {s : Force V E} → Reach result s → Inv s
  unfolding init
  Reach-Inv start = ground arith
  Reach-Inv (later r st) = Step-Inv st (Reach-Inv r)

  Word-cases : (w : Word) → (w ≡ state_empty) ⊎ ((w ≡ callback) ⊎ (w ≡ state_result))
  Word-cases state_empty = inl refl
  Word-cases callback = inr (inl refl)
  Word-cases state_result = inr (inr refl)

  Consumer-cases : (c : Consumer) → (c ≡ consumed) ⊎ (c ≢ consumed)
  Consumer-cases consumed = inl refl
  Consumer-cases to_load = inr (λ e. cc)
  Consumer-cases to_swap = inr (λ e. cc)
  Consumer-cases to_take = inr (λ e. cc)

  -- At any time the callback was completed at most once and the storage deleted exactly as often, and
  -- once it is deleted neither thread has an access to it left.
  pub force_safe :
      {s : Force V E}
      → Reach result s
      → (length s.calls ≤ 1)
        × (s.deletes ≡ length s.calls)
        × ((s.deletes ≡ 0) ⊎ ((s.producer ≡ produced) × (s.consumer ≡ consumed)))
  force_safe {s} r =
      let v : Inv s = Reach-Inv r in
      elim (Word-cases s.state) [
        | inl e ↦
            let (p, a, b, (calls, deletes)) = v.empty_word e in
            (ground (arith, calls), ground (arith, calls, deletes), inl deletes)
        | inr (inl e) ↦
            let (p, c, (calls, deletes)) = v.callback_word e in
            (ground (arith, calls), ground (arith, calls, deletes), inl deletes)
        | inr (inr e) ↦ elim (Consumer-cases s.consumer) [
          | inl c ↦
              let (calls, deletes) = v.taken e c in
              (ground (arith, calls), ground (arith, calls, deletes), inr (v.result_word e, c))
          | inr c ↦
              let (calls, deletes) = v.untaken e c in
              (ground (arith, calls), ground (arith, calls, deletes), inl deletes)
        ]
      ]

  -- When the signal has completed with `result` and the slot's connection was emitted, in any order
  -- and interleaving, the callback was completed exactly once, with `result`, and the storage deleted.
  pub force_outcome :
      {s : Force V E}
      → Reach result s
      → s.producer ≡ produced
      → s.consumer ≡ consumed
      → (s.calls ≡ result ∷ []) × (s.deletes ≡ 1)
  force_outcome {s} r p c =
      let v : Inv s = Reach-Inv r in
      elim (Word-cases s.state) [
        | inl e ↦ absurd ((v.empty_word e).0 p)
        | inr (inl e) ↦ absurd ((v.callback_word e).0 p)
        | inr (inr e) ↦ v.taken e c
      ]
