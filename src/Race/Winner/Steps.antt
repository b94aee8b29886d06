-- ===== src/Race/Winner/Steps.antt =====
-- One step at a time: which completion reaches the outer slot of `any`, `all` and `select`
-- (include/sl/exec/algo/tf/par/any.hpp, all.hpp, include/sl/exec/algo/sync/select.hpp).
use serious_execution_librar.Prelude.{
  ℕ, refl, ◌<◌, ◌≡◌, ◌⊎◌, inl, inr, Bool, true, false, Option, none, some, [], ◌∷◌, arith, ◌==◌,
  Bool-cases, update, weigh, weigh-update, ◌∙◌, weigh-le, weigh_full, member-le-weigh,
}
use serious_execution_librar.Race.{
  Pc, pending, claimed, counting, settling, finished, Race, lead, settle, claim_for, skip, count,
  trail,
}
use serious_execution_librar.Race.Invariant.{Inv, counted, is_settling, is_claimed}

-- The slot has not been completed.
abbrev pub is_waiting : {I : Type 0} → Pc I → Bool
is_waiting pending = true
is_waiting claimed = true
is_waiting _ = false

module _ {I O : Type 0} (leads : I → Bool) (out : ℕ → I → O) (ending : (ℕ → Option I) → I → O)
    (n : ℕ) where
  -- A completion that leads won: it was handed on, and the cancellation spares its slot.
  abbrev pub Led : Race I O → Type 0
  Led s =
      (j : ℕ) × (y : I) × (leads y ≡ true)
      × (s.inputs j ≡ some y)
      × (s.calls ≡ out j y ∷ [])
      × (s.cancels ≡ j ∷ [])

  -- Every slot has counted without a completion that leads, and the last one decided.
  abbrev pub Ended : Race I O → Type 0
  Ended s =
      (j : ℕ) × (y : I) × (leads y ≡ false)
      × (s.inputs j ≡ some y)
      × (s.calls ≡ ending s.inputs y ∷ [])
      × (s.counter ≡ n)
      × ((i : ℕ) (x : I) → i < n → s.inputs i ≡ some x → leads x ≡ false)

  pub record Winner (s : Race I O) : Type 0 where
    pub fresh_pending : (i : ℕ) → s.pcs i ≡ pending → s.inputs i ≡ none
    pub fresh_claimed : (i : ℕ) → s.pcs i ≡ claimed → s.inputs i ≡ none
    pub silent : (i : ℕ) → s.inputs i ≡ none → is_waiting (s.pcs i) ≡ true
    pub settled : (i : ℕ) (x : I) → s.pcs i ≡ settling x → (s.inputs i ≡ some x) × (leads x ≡ false)
    pub lead_won :
        (i : ℕ) (x : I)
        → i < n
        → s.inputs i ≡ some x
        → leads x ≡ true
        → Led s ⊎ (0 < weigh is_claimed n s.pcs)
    pub decided : s.done ≡ true → Led s ⊎ Ended s ⊎ (0 < weigh is_claimed n s.pcs)

  module _ (i : ℕ) (below : i < n) (s : Race I O) (v : Inv n s) (w : Winner s) where
    -- A slot that has not counted keeps the counter below N.
    not_all : counted (s.pcs i) ≡ 0 → s.counter < n
    not_all e = elim (Bool-cases (s.counter == n)) [
      | inl full ↦ absurd (
          ground (
            arith,
            weigh_full counted (λ q. ground arith) n s.pcs (ground (arith, v.counter_sum)) i below,
          ))
      | inr other ↦
          ground (arith, v.counter_sum, weigh-le counted (λ (q : Pc I). ground arith) n s.pcs)
    ]

    -- An input of slot `i`, which had none, hides no other.
    inputs_kept :
        (x : I)
        → s.inputs i ≡ none
        → (j : ℕ) (y : I) → s.inputs j ≡ some y
        → update s.inputs i (some x) j ≡ some y
    inputs_kept x e j y h = ground arith

    claimed_same :
        (p : Pc I)
        → is_claimed (s.pcs i) ≡ is_claimed p
        → weigh is_claimed n (update s.pcs i p) ≡ weigh is_claimed n s.pcs
    claimed_same p e = ground (arith, weigh-update is_claimed n i s.pcs p)

    no_calls : s.done ≡ false → (s.calls ≡ []) × (s.cancels ≡ []) × (weigh is_claimed n s.pcs ≡ 0)
    no_calls e = ground (arith, v.once, v.few_cancels)

    won_first :
        (x : I) (t : Race I O)
        → leads x ≡ true
        → t.inputs i ≡ some x
        → t.calls ≡ out i x ∷ []
        → t.cancels ≡ i ∷ []
        → Led t
    won_first x t l a b c = (i, x, l, a, b, c)

    Led-kept :
        (t : Race I O)
        → t.calls ≡ s.calls
        → t.cancels ≡ s.cancels
        → ((j : ℕ) (y : I) → s.inputs j ≡ some y → t.inputs j ≡ some y)
        → Led s
        → Led t
    Led-kept t same_calls same_cancels kept (j, y, l, input, calls, cancels) =
        (j, y, l, kept j y input, same_calls ∙ calls, same_cancels ∙ cancels)

    lead_result :
        (x : I)
        → s.pcs i ≡ pending
        → leads x ≡ true
        → Led (lead i x (out i x) s) ⊎ (0 < weigh is_claimed n (update s.pcs i counting))
    unfolding lead
    lead_result x e l = elim (Bool-cases s.done) [
      | inr free ↦ inl (
          won_first x (lead i x (out i x) s) l (ground arith) (ground (arith, no_calls free))
            (ground (arith, no_calls free)))
      | inl taken ↦ elim (w.decided taken) [
        | inl led ↦ inl (
            Led-kept (lead i x (out i x) s) (ground arith) (ground arith)
              (inputs_kept x (w.fresh_pending i e)) led)
        | inr (inl ended) ↦ absurd (omega (arith, not_all (ground (arith, e)), ended.5))
        | inr (inr reserved) ↦ inr (omega (arith, claimed_same counting (ground (arith, e))))
      ]
    ]

    pub lead-Winner : (x : I) → s.pcs i ≡ pending → leads x ≡ true → Winner (lead i x (out i x) s)
    unfolding lead
    lead-Winner x e l = record {
      fresh_pending = λ k h. ground (arith, w.fresh_pending k);
      fresh_claimed = λ k h. ground (arith, w.fresh_claimed k);
      silent = λ k h. ground (arith, w.silent k);
      settled = λ k y h. ground (arith, w.settled k y);
      lead_won = λ k y b h m. lead_result x e l;
      decided = λ h. elim (lead_result x e l) [ inl a ↦ inl a | inr b ↦ inr (inr b) ];
    }

    -- A step that calls nobody keeps who won.
    result_kept :
        (t : Race I O)
        → t.calls ≡ s.calls
        → t.cancels ≡ s.cancels
        → ((j : ℕ) (y : I) → s.inputs j ≡ some y → t.inputs j ≡ some y)
        → weigh is_claimed n t.pcs ≡ weigh is_claimed n s.pcs
        → Led s ⊎ (0 < weigh is_claimed n s.pcs)
        → Led t ⊎ (0 < weigh is_claimed n t.pcs)
    result_kept t a b c d (inl led) = inl (Led-kept t a b c led)
    result_kept t a b c d (inr reserved) = inr (omega (arith, d))

    -- Before slot `i` has counted, a decision was made by a completion that leads or is reserved.
    decided_early : counted (s.pcs i) ≡ 0 → s.done ≡ true → Led s ⊎ (0 < weigh is_claimed n s.pcs)
    decided_early e h = elim (w.decided h) [
      | inl led ↦ inl led
      | inr (inl ended) ↦ absurd (omega (arith, not_all e, ended.5))
      | inr (inr reserved) ↦ inr reserved
    ]

    pub trail-Winner : (x : I) → s.pcs i ≡ pending → leads x ≡ false → Winner (trail n i x s)
    unfolding trail
    trail-Winner x e l = record {
      fresh_pending = λ k h. ground (arith, w.fresh_pending k);
      fresh_claimed = λ k h. ground (arith, w.fresh_claimed k);
      silent = λ k h. ground (arith, w.silent k);
      settled = λ k y h. ground (arith, w.settled k y);
      lead_won = λ k y b h m. kept (w.lead_won k y b (ground arith) m);
      decided = λ h. elim (kept (decided_early (ground (arith, e)) h)) [
        | inl a ↦ inl a
        | inr b ↦ inr (inr b)
      ];
    }
      where
        kept :
            Led s ⊎ (0 < weigh is_claimed n s.pcs)
            → Led (trail n i x s) ⊎ (0 < weigh is_claimed n (trail n i x s).pcs)
        kept =
            result_kept (trail n i x s) refl refl (inputs_kept x (w.fresh_pending i e))
              (claimed_same _ (ground (arith, e)))

    pub count-Winner : s.pcs i ≡ counting → Winner (count n i s)
    unfolding count
    count-Winner e = record {
      fresh_pending = λ k h. ground (arith, w.fresh_pending k);
      fresh_claimed = λ k h. ground (arith, w.fresh_claimed k);
      silent = λ k h. ground (arith, w.silent k);
      settled = λ k y h. ground (arith, w.settled k y);
      lead_won = λ k y b h m. kept (w.lead_won k y b h m);
      decided = λ h. elim (kept (decided_early (ground (arith, e)) h)) [
        | inl a ↦ inl a
        | inr b ↦ inr (inr b)
      ];
    }
      where
        kept :
            Led s ⊎ (0 < weigh is_claimed n s.pcs)
            → Led (count n i s) ⊎ (0 < weigh is_claimed n (count n i s).pcs)
        kept = result_kept (count n i s) refl refl (λ j y h. h) (claimed_same _ (ground (arith, e)))

    pub claim_for-Winner : s.pcs i ≡ pending → s.done ≡ false → Winner (claim_for i s)
    unfolding claim_for
    claim_for-Winner e free = record {
      fresh_pending = λ k h. ground (arith, w.fresh_pending k);
      fresh_claimed = λ k h. ground (arith, w.fresh_claimed k, w.fresh_pending k);
      silent = λ k h. ground (arith, w.silent k);
      settled = λ k y h. ground (arith, w.settled k y);
      lead_won = λ k y b h m. inr reserved;
      decided = λ h. inr (inr reserved);
    }
      where
        reserved : 0 < weigh is_claimed n (update s.pcs i claimed)
        reserved = ground (arith, weigh-update is_claimed n i s.pcs claimed)

    pub skip-Winner : (x : I) → s.pcs i ≡ claimed → leads x ≡ true → Winner (skip i x (out i x) s)
    unfolding skip
    skip-Winner x e l = record {
      fresh_pending = λ k h. ground (arith, w.fresh_pending k);
      fresh_claimed = λ k h. ground (arith, w.fresh_claimed k);
      silent = λ k h. ground (arith, w.silent k);
      settled = λ k y h. ground (arith, w.settled k y);
      lead_won = λ k y b h m. inl won;
      decided = λ h. inl won;
    }
      where
        empty : (s.calls ≡ []) × (s.cancels ≡ [])
        empty = ground (arith, v.once, v.few_cancels, e, member-le-weigh is_claimed n s.pcs i below)

        won : Led (skip i x (out i x) s)
        won =
            won_first x (skip i x (out i x) s) l (ground arith) (ground (arith, empty))
              (ground (arith, empty))

    pub settle-Winner : (x : I) → s.pcs i ≡ settling x → Winner (settle i (ending s.inputs x) s)
    unfolding settle
    settle-Winner x e = record {
      fresh_pending = λ k h. ground (arith, w.fresh_pending k);
      fresh_claimed = λ k h. ground (arith, w.fresh_claimed k);
      silent = λ k h. ground (arith, w.silent k);
      settled = λ k y h. ground (arith, w.settled k y);
      lead_won = λ k y b h m. elim (Bool-cases s.done) [
        | inl taken ↦ kept taken (w.lead_won k y b h m)
        | inr free ↦ absurd (nobody_led free k y b h m)
      ];
      decided = λ _. elim (Bool-cases s.done) [
        | inr free ↦ inr (
            inl (
              i,
              x,
              (w.settled i x e).1,
              (w.settled i x e).0,
              ground (arith, no_calls free),
              all_counted,
              trailers free,
            ))
        | inl taken ↦ elim (w.decided taken) [
          | inl led ↦ elim (kept taken (inl led)) [ inl a ↦ inl a | inr b ↦ inr (inr b) ]
          | inr (inl (j, y, l, h, calls, full, none_led)) ↦
              inr (inl (j, y, l, h, ground (arith, calls), full, none_led))
          | inr (inr reserved) ↦
              inr (inr (omega (arith, claimed_same finished (ground (arith, e)))))
        ]
      ];
    }
      where
        all_counted : s.counter ≡ n
        all_counted = ground (arith, v.last_one, e, member-le-weigh is_settling n s.pcs i below)

        kept :
            s.done ≡ true
            → Led s ⊎ (0 < weigh is_claimed n s.pcs)
            → Led (settle i (ending s.inputs x) s)
              ⊎ (0 < weigh is_claimed n (settle i (ending s.inputs x) s).pcs)
        kept taken =
            result_kept (settle i (ending s.inputs x) s) (ground arith) refl (λ j y h. h)
              (claimed_same _ (ground (arith, e)))

        nobody_led :
            s.done ≡ false → (k : ℕ) (y : I) → k < n → s.inputs k ≡ some y → leads y ≡ true → ⊥
        nobody_led free k y b h m = elim (w.lead_won k y b h m) [
          | inl led ↦ ground (arith, no_calls free, led.4)
          | inr reserved ↦ omega (arith, no_calls free)
        ]

        trailers : s.done ≡ false → (k : ℕ) (y : I) → k < n → s.inputs k ≡ some y → leads y ≡ false
        trailers free k y b h = elim (Bool-cases (leads y)) [
          | inl m ↦ absurd (nobody_led free k y b h m)
          | inr m ↦ m
        ]
