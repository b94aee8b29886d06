-- ===== src/Par/All.antt =====
-- include/sl/exec/algo/tf/par/all.hpp, `all_connection`: the handlers of its inner slots.
mod Tests
use serious_execution_librar.Prelude.{
  ℕ, zero, suc, refl, dec_lt, ◌≢◌, ◌+◌, ◌^◌, ◌<◌, ◌≤◌, ◌≡◌, ◌⊎◌, inl, inr, Bool, true, false,
  Option, none, some, List, [], ◌∷◌, ◌++◌, arith, length, length-append, get_elem?,
  get_elem?-append, Bool-cases, ◌==◌, ap, sym, ◌∙◌,
}
use mathlib.Core.Option
use serious_execution_librar.Slot.{Completion, value, error, null}
use serious_execution_librar.Race.{
  Pc, pending, counting, settling, finished, Race, init, lead, settle, count, trail,
}
use serious_execution_librar.Race.Invariant.{Inv, finished_lem, deleted_lem}
use serious_execution_librar.Race.Protocol
use serious_execution_librar.Race.Protocol.{Reach-Inv}
use serious_execution_librar.Race.Winner.{outcome, heard}

-- The outer slot gets a completion with all values; `none` stands for the failed assertion that a result
-- is missing. The field `inputs` of the race holds the values of `maybe_results_`.
abbrev pub All : Type 0 → Type 0 → Type 0
All V E = Race (Completion V E) (Option (Completion (List V) E))

module _ {V E : Type 0} where
  -- The `for_each` over `maybe_results_`, in the order of the indices.
  append_result : Option (List V) → Option (Completion V E) → Option (List V)
  append_result (some vs) (some (value v)) = some (vs ++ v ∷ [])
  append_result _ _ = none

  pub collect : ℕ → (ℕ → Option (Completion V E)) → Option (List V)
  unfolding append_result
  collect zero results = some []
  collect (suc n) results = append_result (collect n results) (results n)

  abbrev as_value : Option (List V) → Option (Completion (List V) E)
  as_value none = none
  as_value (some vs) = some (value vs)

  -- What `slot_` is completed with by `set_error_impl` and `set_null_impl`.
  abbrev pub passed_on : ℕ → Completion V E → Option (Completion (List V) E)
  passed_on i (value v) = none
  passed_on i (error e) = some (error e)
  passed_on i null = some null

  -- Each handler up to and with its first atomic access.
  pub set_value_impl : ℕ → ℕ → V → All V E → All V E
  set_value_impl n index v s = trail n index (value v) s

  pub set_error_impl : ℕ → E → All V E → All V E
  set_error_impl index e s = lead index (error e) (some (error e)) s

  pub set_null_impl : ℕ → All V E → All V E
  set_null_impl index s = lead index null (some null) s

  -- The end of `set_value_impl` in the last slot, and of the other two.
  pub end_last : ℕ → ℕ → All V E → All V E
  unfolding collect
  end_last n index s = settle index (as_value (collect n s.inputs)) s

  pub end_early : ℕ → ℕ → All V E → All V E
  end_early n index s = count n index s

  -- `n` inner slots, each completed at most once, with their handlers interleaved.
  pub data Step (n : ℕ) (s : All V E) : All V E → Type 0 where
    on_value : (i : ℕ) (v : V) → i < n → s.pcs i ≡ pending → Step n s (set_value_impl n i v s)
    on_error : (i : ℕ) (e : E) → i < n → s.pcs i ≡ pending → Step n s (set_error_impl i e s)
    on_null : (i : ℕ) → i < n → s.pcs i ≡ pending → Step n s (set_null_impl i s)
    ends_early : (i : ℕ) → i < n → s.pcs i ≡ counting → Step n s (end_early n i s)
    ends_last :
        (i : ℕ) (r : Completion V E) → i < n → s.pcs i ≡ settling r → Step n s (end_last n i s)

  pub data Reach (n : ℕ) : All V E → Type 0 where
    start : Reach n init
    later : {s t : All V E} → Reach n s → Step n s t → Reach n t

  abbrev pub fails : Completion V E → Bool
  fails (value v) = false
  fails _ = true

  abbrev gathered :
      ℕ → (ℕ → Option (Completion V E)) → Completion V E → Option (Completion (List V) E)
  gathered n results r = as_value (collect n results)

  by_protocol :
      {n : ℕ} {s t : All V E} → Step n s t → Protocol.Step fails passed_on (gathered n) n s t
  unfolding set_value_impl set_error_impl set_null_impl end_early end_last
  by_protocol (on_value i v b e) = Protocol.Step.trailing i (value v) b e refl
  by_protocol (on_error i x b e) = Protocol.Step.leading i (error x) b e refl
  by_protocol (on_null i b e) = Protocol.Step.leading i null b e refl
  by_protocol (ends_early i b e) = Protocol.Step.counts i b e
  by_protocol (ends_last i r b e) = Protocol.Step.settles i r b e

  Reach-protocol :
      {n : ℕ} {s : All V E} → Reach n s → Protocol.Reach fails passed_on (gathered n) n s
  Reach-protocol start = Protocol.Reach.start
  Reach-protocol (later r st) = Protocol.Reach.later (Reach-protocol r) (by_protocol st)

  -- With a value from every slot the list is complete and in order.
  collect_lem :
      (n : ℕ) (results : ℕ → Option (Completion V E))
      → ((i : ℕ) → i < n → (v : V) × (results i ≡ some (value v)))
      → (vs : List V) × (collect n results ≡ some vs)
        × (length vs ≡ n)
        × ((i : ℕ) → i < n → Option.map value (get_elem? vs i) ≡ results i)
  unfolding collect
  collect_lem zero results all = ([], refl, refl, λ i b. absurd (omega arith))
  collect_lem (suc n) results all =
      let (vs, e, len, at) = collect_lem n results (λ i b. all i (omega arith)) in
      let (v, last) = all n (omega arith) in
      (
        vs ++ v ∷ [],
        rw (e, last),
        omega (arith, length-append vs (v ∷ [])),
        λ i b. elim (Bool-cases (i == n)) [
          | inl here ↦ ground (arith, get_elem?-append vs v i)
          | inr before ↦ ground (arith, get_elem?-append vs v i, at i (ground arith))
        ],
      )

  module _ {n : ℕ} {s : All V E} (positive : 0 < n) (small : n < 2 ^ 32) (r : Reach n s) where
    inv : Inv n s
    inv = Reach-Inv fails passed_on (gathered n) n positive small (Reach-protocol r)

    -- At any time the outer slot of `all` was completed once at most, at most one cancellation and at
    -- most one deletion were scheduled, and with a deletion scheduled every inner slot is done.
    pub all_safe :
        (i : ℕ)
        → i < n
        → (length s.calls ≤ 1)
          × (length s.cancels ≤ 1)
          × (s.deletes ≤ 1)
          × ((s.deletes ≡ 0) ⊎ (s.pcs i ≡ finished))
    all_safe i b = (
      ground (arith, inv.once),
      ground (arith, inv.once, inv.few_cancels),
      ground (arith, inv.last_one),
      elim (dec_lt 0 s.deletes) [
        | yes deleted ↦ inr (deleted_lem n s inv deleted i b)
        | no p ↦ inl (omega arith)
      ],
    )

    -- When every inner slot is done, the outer slot was completed exactly once and the deletion was
    -- scheduled exactly once. Either an inner slot `j` gave an error or null, the outer slot got it and
    -- the cancellation spares `j`; or the outer slot got the list of the `n` values that the inner slots
    -- gave, in the order of the slots.
    pub all_outcome :
        ((i : ℕ) → i < n → s.pcs i ≡ finished)
        → (length s.calls ≡ 1)
          × (s.deletes ≡ 1)
          × (((j : ℕ) × (x : Completion V E) × (s.inputs j ≡ some x)
                × (s.calls ≡ passed_on j x ∷ [])
                × (fails x ≡ true)
                × (s.cancels ≡ j ∷ []))
              ⊎ ((vs : List V) × (s.calls ≡ some (value vs) ∷ [])
                  × (length vs ≡ n)
                  × ((i : ℕ) → i < n → Option.map value (get_elem? vs i) ≡ s.inputs i)))
    all_outcome over = (
      (finished_lem n s positive inv over).0,
      (finished_lem n s positive inv over).1,
      elim (outcome fails passed_on (gathered n) n positive small (Reach-protocol r) over) [
        | inl (j, x, l, input, calls, cancels) ↦ inl (j, x, input, calls, l, cancels)
        | inr (j, x, l, input, calls, full, none_led) ↦
            let (vs, e, len, at) = collect_lem n s.inputs (λ i b.
              given i b
                (heard fails passed_on (gathered n) n positive small (Reach-protocol r) i
                  (over i b))
                none_led) in
            inr (vs, ground (arith, calls, e), len, at)
      ],
    )
      where
        given :
            (i : ℕ)
            → i < n
            → (x : Completion V E) × (s.inputs i ≡ some x)
            → ((k : ℕ) (y : Completion V E) → k < n → s.inputs k ≡ some y → fails y ≡ false)
            → (v : V) × (s.inputs i ≡ some (value v))
        given i b (value v, h) none_led = (v, h)
        given i b (error e, h) none_led = absurd (cc (none_led i (error e) b h))
        given i b (null, h) none_led = absurd (cc (none_led i null b h))
