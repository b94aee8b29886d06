-- ===== src/Par/Any.antt =====
-- include/sl/exec/algo/tf/par/any.hpp, `any_connection`: the handlers of its inner slots.
mod Tests
use serious_execution_librar.Prelude.{
  ℕ, refl, dec_lt, ◌≢◌, ◌+◌, ◌^◌, ◌<◌, ◌≤◌, ◌≡◌, ◌⊎◌, inl, inr, Bool, true, false, Option, none,
  some, List, [], ◌∷◌, arith, length,
}
use serious_execution_librar.Slot.{Completion, value, error, null}
use serious_execution_librar.Race.{
  Pc, pending, counting, settling, finished, Race, init, lead, settle, count, trail,
}
use serious_execution_librar.Race.Invariant.{Inv, finished_lem, deleted_lem}
use serious_execution_librar.Race.Protocol
use serious_execution_librar.Race.Protocol.{Reach-Inv}
use serious_execution_librar.Race.Winner.{outcome}

abbrev pub Any : Type 0 → Type 0 → Type 0
Any V E = Race (Completion V E) (Completion V E)

module _ {V E : Type 0} where
  -- Each handler up to and with its first atomic access.
  pub set_value_impl : ℕ → V → Any V E → Any V E
  set_value_impl index v s = lead index (value v) (value v) s

  pub set_error_impl : ℕ → ℕ → E → Any V E → Any V E
  set_error_impl n index e s = trail n index (error e) s

  pub set_null_impl : ℕ → ℕ → Any V E → Any V E
  set_null_impl n index s = trail n index null s

  -- The end of `set_value_impl`, and of the other two in the last slot.
  pub end_value : ℕ → ℕ → Any V E → Any V E
  end_value n index s = count n index s

  pub end_last : ℕ → Completion V E → Any V E → Any V E
  end_last index r s = settle index r s

  -- `n` inner slots, each completed at most once, with their handlers interleaved.
  pub data Step (n : ℕ) (s : Any V E) : Any V E → Type 0 where
    on_value : (i : ℕ) (v : V) → i < n → s.pcs i ≡ pending → Step n s (set_value_impl i v s)
    on_error : (i : ℕ) (e : E) → i < n → s.pcs i ≡ pending → Step n s (set_error_impl n i e s)
    on_null : (i : ℕ) → i < n → s.pcs i ≡ pending → Step n s (set_null_impl n i s)
    ends_value : (i : ℕ) → i < n → s.pcs i ≡ counting → Step n s (end_value n i s)
    ends_last :
        (i : ℕ) (r : Completion V E) → i < n → s.pcs i ≡ settling r → Step n s (end_last i r s)

  pub data Reach (n : ℕ) : Any V E → Type 0 where
    start : Reach n init
    later : {s t : Any V E} → Reach n s → Step n s t → Reach n t

  abbrev pub is_value : Completion V E → Bool
  is_value (value v) = true
  is_value _ = false

  abbrev same : ℕ → Completion V E → Completion V E
  same i r = r

  abbrev last : (ℕ → Option (Completion V E)) → Completion V E → Completion V E
  last inputs r = r

  by_protocol : {n : ℕ} {s t : Any V E} → Step n s t → Protocol.Step is_value same last n s t
  unfolding set_value_impl set_error_impl set_null_impl end_value end_last
  by_protocol (on_value i v b e) = Protocol.Step.leading i (value v) b e refl
  by_protocol (on_error i x b e) = Protocol.Step.trailing i (error x) b e refl
  by_protocol (on_null i b e) = Protocol.Step.trailing i null b e refl
  by_protocol (ends_value i b e) = Protocol.Step.counts i b e
  by_protocol (ends_last i r b e) = Protocol.Step.settles i r b e

  Reach-protocol : {n : ℕ} {s : Any V E} → Reach n s → Protocol.Reach is_value same last n s
  Reach-protocol start = Protocol.Reach.start
  Reach-protocol (later r st) = Protocol.Reach.later (Reach-protocol r) (by_protocol st)

  module _ {n : ℕ} {s : Any V E} (positive : 0 < n) (small : n < 2 ^ 32) (r : Reach n s) where
    inv : Inv n s
    inv = Reach-Inv is_value same last n positive small (Reach-protocol r)

    -- At any time the outer slot of `any` was completed once at most, at most one cancellation and at
    -- most one deletion were scheduled, and with a deletion scheduled every inner slot is done, so that
    -- none touches the connection after it is deleted.
    pub any_safe :
        (i : ℕ)
        → i < n
        → (length s.calls ≤ 1)
          × (length s.cancels ≤ 1)
          × (s.deletes ≤ 1)
          × ((s.deletes ≡ 0) ⊎ (s.pcs i ≡ finished))
    any_safe i b = (
      ground (arith, inv.once),
      ground (arith, inv.once, inv.few_cancels),
      ground (arith, inv.last_one),
      elim (dec_lt 0 s.deletes) [
        | yes deleted ↦ inr (deleted_lem n s inv deleted i b)
        | no p ↦ inl (omega arith)
      ],
    )

    -- When every inner slot is done, the outer slot was completed exactly once and the deletion was
    -- scheduled exactly once. Either an inner slot `j` gave a value, the outer slot got it and the
    -- cancellation spares `j`; or no inner slot gave a value and the outer slot got what one gave.
    pub any_outcome :
        ((i : ℕ) → i < n → s.pcs i ≡ finished)
        → (length s.calls ≡ 1)
          × (s.deletes ≡ 1)
          × (((j : ℕ) × (v : V) × (s.inputs j ≡ some (value v))
                × (s.calls ≡ value v ∷ [])
                × (s.cancels ≡ j ∷ []))
              ⊎ (((i : ℕ) (v : V) → i < n → s.inputs i ≢ some (value v))
                  × ((j : ℕ) × (x : Completion V E) × (s.inputs j ≡ some x) × (s.calls ≡ x ∷ []))))
    any_outcome over = (
      (finished_lem n s positive inv over).0,
      (finished_lem n s positive inv over).1,
      elim (outcome is_value same last n positive small (Reach-protocol r) over) [
        | inl (j, value v, l, input, calls, cancels) ↦ inl (j, v, input, calls, cancels)
        | inl (j, error e, l, input, calls, cancels) ↦ cc
        | inl (j, null, l, input, calls, cancels) ↦ cc
        | inr (j, x, l, input, calls, full, none_led) ↦
            inr (λ i v b h. cc (none_led i (value v) b h), (j, x, input, calls))
      ],
    )
