-- ===== src/Share/Lifetime.antt =====
-- The callbacks and the deletion of the storage of include/sl/exec/algo/emit/share.hpp.
use serious_execution_librar.Prelude.{
  ℕ, ◌<◌, ◌≤◌, ◌≡◌, ◌⊎◌, inl, inr, refl, false, Option, List, [], ◌∷◌, arith, ◌==◌, bit, count_if,
  weigh_all, member-le-weigh, Bool-cases, dec_lt, ap,
}
use serious_execution_librar.Slot.{Result}
use serious_execution_librar.Share.{
  Word, state_empty, callbacks, state_result, Phase, unborn, holding, linked, to_copy, to_release,
  called, released, dropped, Producer, idle, to_store, to_exchange, notifying, produced, Share,
  Reach,
}
use serious_execution_librar.Share.Invariant.{
  weight, is_linked, owed, waiting, calls_of, was_called, AllCarry, Agree, Inv, Reach-Inv,
}

-- Signals and connections that have something left to do of their own accord. Those in the chain have not.
abbrev pub unfinished : Phase → ℕ
unfinished holding = 1
unfinished to_copy = 1
unfinished to_release = 1
unfinished _ = 0

module _ {V E : Type 0} (n : ℕ) (result : Option (Result V E)) {s : Share V E}
    (r : Reach n result s) where
  v : Inv n result s
  v = Reach-Inv n result r

  -- A callback that waits keeps the storage alive.
  alive : (i : ℕ) (l : List ℕ) → waiting s.state s.producer ≡ i ∷ l → 0 < s.refcount
  alive i l e = ground (arith, v.queued i, v.few i, v.counted, member-le-weigh weight n s.phases i)

  -- So does `set_result` while it runs.
  Producer-cases :
      (w : Word) (p : Producer)
      → Agree w p
      → ((i : ℕ) (l : List ℕ) → waiting w p ≡ i ∷ l → 0 < s.refcount)
      → owed p ≤ s.refcount
      → (0 < s.refcount) ⊎ ((p ≡ idle) ⊎ (p ≡ produced))
  Producer-cases state_empty idle a live o = inr (inl refl)
  Producer-cases (callbacks (i ∷ l)) to_store a live o = inl (live i l refl)
  Producer-cases (callbacks (i ∷ l)) to_exchange a live o = inl (live i l refl)
  Producer-cases state_result (notifying (i ∷ l) m) a live o = inl (live i l refl)
  Producer-cases state_result (notifying [] m) a live o = inl (omega (arith, a, o))
  Producer-cases state_result produced a live o = inr (inr refl)
  Producer-cases w p a live o = absurd a

  Phase-cases :
      (p : Phase) (calls : ℕ)
      → weight p ≡ 0
      → calls ≡ bit (was_called p)
      → ((p ≡ unborn) ⊎ (p ≡ dropped)) ⊎ (calls ≡ 1)
  Phase-cases unborn c h e = inl (inl refl)
  Phase-cases dropped c h e = inl (inr refl)
  Phase-cases called c h e = inr e
  Phase-cases released c h e = inr e
  Phase-cases p c h e = absurd (omega arith)

  -- At any time each callback was called at most once, every call carried the result of the inner
  -- signal, and the storage was deleted at most once. Once it is deleted, the box is gone, no signal or
  -- connection `i` holds a reference or waits, and `set_result` is not running.
  pub share_safe :
      (i : ℕ)
      → i < n
      → (count_if (calls_of i) s.calls ≤ 1)
        × AllCarry result s.calls
        × (s.deletes ≤ 1)
        × ((s.deletes ≡ 0)
            ⊎ ((s.has_box ≡ false)
                × (weight (s.phases i) ≡ 0)
                × ((s.producer ≡ idle) ⊎ (s.producer ≡ produced))))
  share_safe i b = (ground (arith, v.heard i), v.carried, ground (arith, v.deleted), rest)
    where
      gone : s.refcount ≡ 0 → (s.producer ≡ idle) ⊎ (s.producer ≡ produced)
      gone e = elim (Producer-cases s.state s.producer v.agree alive (omega (arith, v.counted))) [
        | inl some_left ↦ absurd (omega arith)
        | inr over ↦ over
      ]

      rest :
          (s.deletes ≡ 0)
          ⊎ ((s.has_box ≡ false)
              × (weight (s.phases i) ≡ 0)
              × ((s.producer ≡ idle) ⊎ (s.producer ≡ produced)))
      rest = elim (Bool-cases (s.refcount == 0)) [
        | inl none_left ↦
            let zero_left : s.refcount ≡ 0 = ground (arith, none_left) in
            inr (
              ground (arith, v.counted, zero_left),
              omega (arith, v.counted, zero_left, member-le-weigh weight n s.phases i b),
              gone zero_left,
            )
        | inr some_left ↦ inl (ground (arith, v.deleted, some_left))
      ]

  -- Once `set_result` has returned, no callback waits.
  none_waits : (w : Word) (p : Producer) → Agree w p → p ≡ produced → waiting w p ≡ []
  none_waits state_result produced a e = refl
  none_waits state_result (notifying l m) a e = absurd (cc)
  none_waits state_result idle a e = absurd (cc)
  none_waits state_result to_store a e = absurd (cc)
  none_waits state_result to_exchange a e = absurd (cc)
  none_waits state_empty p a e = refl
  none_waits (callbacks []) p a e = refl
  none_waits (callbacks (i ∷ l)) idle a e = absurd (cc)
  none_waits (callbacks (i ∷ l)) to_store a e = absurd (cc)
  none_waits (callbacks (i ∷ l)) to_exchange a e = absurd (cc)
  none_waits (callbacks (i ∷ l)) (notifying k m) a e = absurd (cc)
  none_waits (callbacks (i ∷ l)) produced a e = absurd a

  none_linked : s.producer ≡ produced → (i : ℕ) → is_linked (s.phases i) ≡ false
  none_linked p i = ground (arith, v.queued i, none_waits s.state s.producer v.agree p)

  resting : (p : Phase) → unfinished p ≡ 0 → is_linked p ≡ false → weight p ≡ 0
  resting linked u e = absurd (cc)
  resting holding u e = u
  resting to_copy u e = u
  resting to_release u e = u
  resting p u e = refl

  -- When `set_result` has returned, the box is gone, and no signal or connection is still to be emitted or
  -- dropped or on its way through `emit`, the storage was deleted exactly once, and each signal was
  -- never made, or destroyed without emission, or its callback was called exactly once: no callback
  -- that went into the chain is forgotten.
  pub share_outcome :
      s.producer ≡ produced
      → s.has_box ≡ false
      → ((i : ℕ) → i < n → unfinished (s.phases i) ≡ 0)
      → (s.deletes ≡ 1)
        × ((i : ℕ)
            → ((s.phases i ≡ unborn) ⊎ (s.phases i ≡ dropped))
              ⊎ (count_if (calls_of i) s.calls ≡ 1))
  share_outcome p box over = (
    ground (arith, v.deleted, v.counted, weigh_all weight n s.phases 0 (λ i b. settled i)),
    λ i. Phase-cases (s.phases i) _ (settled i) (v.heard i),
  )
    where
      settled : (i : ℕ) → weight (s.phases i) ≡ 0
      settled i = elim (dec_lt i n) [
        | yes below ↦ resting (s.phases i) (over i below) (none_linked p i)
        | no above ↦ ap weight (v.few i (omega arith))
      ]
