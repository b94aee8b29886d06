-- ===== src/Race/Invariant.antt =====
-- The invariant of include/sl/exec/algo/sync/detail/parallel.hpp and of its users, step by step.
use serious_execution_librar.Prelude.{
  ℕ, refl, ◌+◌, ◌^◌, ◌<◌, ◌≤◌, ◌≡◌, true, false, [], ◌∷◌, arith, ◌==◌, bit, update, length,
  length-append, weigh, weigh-update, weigh-le, weigh_full, weigh_all, member-le-weigh,
}
use serious_execution_librar.Race.{
  Pc, pending, claimed, counting, settling, finished, Race, init, lead, settle, claim_for, skip,
  count, trail,
}

module _ {I : Type 0} where
  abbrev pub counted : Pc I → ℕ
  counted (settling r) = 1
  counted finished = 1
  counted _ = 0

  abbrev pub is_settling : Pc I → ℕ
  is_settling (settling r) = 1
  is_settling _ = 0

  abbrev pub is_claimed : Pc I → ℕ
  is_claimed claimed = 1
  is_claimed _ = 0

  abbrev pub is_counting : Pc I → ℕ
  is_counting counting = 1
  is_counting _ = 0

module _ {I O : Type 0} where
  pub record Inv (n : ℕ) (s : Race I O) : Type 0 where
    pub counter_sum : s.counter ≡ weigh counted n s.pcs
    pub once : length s.calls + weigh is_claimed n s.pcs ≡ bit s.done
    pub last_one : s.deletes + weigh is_settling n s.pcs ≡ bit (s.counter == n)
    pub few_cancels : length s.cancels ≤ length s.calls
    pub flag_deleted : 0 < s.deletes → s.done ≡ true
    pub flag_counting : 0 < weigh is_counting n s.pcs → s.done ≡ true

  module _ (n i : ℕ) (small : n < 2 ^ 32) (below : i < n) (s : Race I O) (v : Inv n s) where
    sums :
        (p : Pc I)
        → (weigh counted n (update s.pcs i p) + counted (s.pcs i)
            ≡ weigh counted n s.pcs + counted p)
          × (weigh is_settling n (update s.pcs i p) + is_settling (s.pcs i)
              ≡ weigh is_settling n s.pcs + is_settling p)
          × (weigh is_claimed n (update s.pcs i p) + is_claimed (s.pcs i)
              ≡ weigh is_claimed n s.pcs + is_claimed p)
          × (weigh is_counting n (update s.pcs i p) + is_counting (s.pcs i)
              ≡ weigh is_counting n s.pcs + is_counting p)
    sums p = (
      ground (arith, weigh-update counted n i s.pcs p),
      ground (arith, weigh-update is_settling n i s.pcs p),
      ground (arith, weigh-update is_claimed n i s.pcs p),
      ground (arith, weigh-update is_counting n i s.pcs p),
    )

    bound : (p : Pc I) → (weigh counted n s.pcs ≤ n) × (weigh counted n (update s.pcs i p) ≤ n)
    bound p = (
      weigh-le counted (λ q. ground arith) n s.pcs,
      weigh-le counted (λ q. ground arith) n (update s.pcs i p),
    )

    pub lead-Inv : (x : I) (r : O) → s.pcs i ≡ pending → Inv n (lead i x r s)
    unfolding lead
    lead-Inv x r e =
        ground
          (arith, sums counting, length-append s.calls (r ∷ []), length-append s.cancels (i ∷ []))

    pub claim_for-Inv : s.pcs i ≡ pending → s.done ≡ false → Inv n (claim_for i s)
    unfolding claim_for
    claim_for-Inv e free = ground (arith, sums claimed)

    pub skip-Inv : (x : I) (r : O) → s.pcs i ≡ claimed → Inv n (skip i x r s)
    unfolding skip
    skip-Inv x r e = ground (
      arith,
      sums counting,
      length-append s.calls (r ∷ []),
      length-append s.cancels (i ∷ []),
      member-le-weigh is_claimed n s.pcs i below,
    )

    pub count-Inv : s.pcs i ≡ counting → Inv n (count n i s)
    unfolding count
    count-Inv e =
        ground (arith, sums finished, bound finished, member-le-weigh is_counting n s.pcs i below)

    pub trail-Inv : (x : I) → s.pcs i ≡ pending → Inv n (trail n i x s)
    unfolding trail
    trail-Inv x e =
        ground (arith, sums finished, bound finished, sums (settling x), bound (settling x))

    pub settle-Inv : (r : O) {q : I} → s.pcs i ≡ settling q → Inv n (settle i r s)
    unfolding settle
    settle-Inv r {q} e = ground (arith, sums finished, length-append s.calls (r ∷ []))

  -- Once every inner slot is done, the outer slot has been completed once and the deletion was
  -- scheduled once.
  pub finished_lem :
      (n : ℕ) (s : Race I O)
      → 0 < n
      → Inv n s
      → ((i : ℕ) → i < n → s.pcs i ≡ finished)
      → (length s.calls ≡ 1) × (s.deletes ≡ 1)
  finished_lem n s pos v over = ground (
    arith,
    v.flag_deleted,
    weigh_all counted n s.pcs 1 (λ i b. ground (arith, over i b)),
    weigh_all is_claimed n s.pcs 0 (λ i b. ground (arith, over i b)),
    weigh_all is_settling n s.pcs 0 (λ i b. ground (arith, over i b)),
  )

  -- Once the deletion is scheduled, every inner slot is done.
  pub deleted_lem :
      (n : ℕ) (s : Race I O) → Inv n s → 0 < s.deletes → (i : ℕ) → i < n → s.pcs i ≡ finished
  deleted_lem n s v deleted i b = ground (
    arith,
    weigh_full counted (λ q. ground arith) n s.pcs (ground arith) i b,
    member-le-weigh is_settling n s.pcs i b,
  )

  pub init-Inv : (n : ℕ) → 0 < n → Inv n (init {I = I} {O = O})
  unfolding init
  init-Inv n pos = ground (
    arith,
    weigh_all (counted {I = I}) n (λ i. pending) 0 (λ i b. refl),
    weigh_all (is_claimed {I = I}) n (λ i. pending) 0 (λ i b. refl),
    weigh_all (is_settling {I = I}) n (λ i. pending) 0 (λ i b. refl),
    weigh_all (is_counting {I = I}) n (λ i. pending) 0 (λ i b. refl),
  )
