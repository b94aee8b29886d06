-- ===== src/Race/Winner.antt =====
-- Which completion reaches the outer slot of `any`, `all` and `select`
-- (include/sl/exec/algo/tf/par/any.hpp, all.hpp, include/sl/exec/algo/sync/select.hpp).
mod Steps
pub use Steps.{Led, Ended}
use serious_execution_librar.Prelude.{
  ℕ, refl, ◌+◌, ◌^◌, ◌<◌, ◌≤◌, ◌≡◌, ◌⊎◌, inl, inr, Bool, true, false, Option, none, some, List, [],
  ◌∷◌, ◌++◌, arith, ◌==◌, bit, length, Bool-cases, Option-cases, update, weigh, weigh-update, ◌∙◌,
  weigh-le, weigh_full, weigh_all, member-le-weigh,
}
use serious_execution_librar.Race.{
  Pc, pending, claimed, counting, settling, finished, Race, init, lead, settle, claim_for, skip,
  count, trail,
}
use serious_execution_librar.Race.Invariant.{Inv, counted, is_settling, is_claimed, finished_lem}
use serious_execution_librar.Race.Protocol.{
  Step, leading, trailing, counts, settles, claims, skips, Reach, start, later, Reach-Inv,
}
use Steps.{
  Winner, lead-Winner, trail-Winner, count-Winner, claim_for-Winner, skip-Winner, settle-Winner,
}

module _ {I O : Type 0} (leads : I → Bool) (out : ℕ → I → O) (ending : (ℕ → Option I) → I → O)
    (n : ℕ) where
  Step-Winner :
      {s t : Race I O}
      → Step leads out ending n s t
      → Inv n s
      → Winner leads out ending n s
      → Winner leads out ending n t
  Step-Winner {s} (leading i x b e l) v w = lead-Winner leads out ending n i b s v w x e l
  Step-Winner {s} (trailing i x b e l) v w = trail-Winner leads out ending n i b s v w x e l
  Step-Winner {s} (counts i b e) v w = count-Winner leads out ending n i b s v w e
  Step-Winner {s} (settles i x b e) v w = settle-Winner leads out ending n i b s v w x e
  Step-Winner {s} (claims i b e free) v w = claim_for-Winner leads out ending n i b s v w e free
  Step-Winner {s} (skips i x b e l) v w = skip-Winner leads out ending n i b s v w x e l

  init-Winner : Winner leads out ending n init
  unfolding init
  init-Winner = record {
    fresh_pending = λ i h. refl;
    fresh_claimed = λ i h. refl;
    silent = λ i h. refl;
    settled = λ i x h. cc;
    lead_won = λ i x b h l. cc;
    decided = λ h. cc;
  }

  Reach-Winner :
      0 < n → n < 2 ^ 32 → {s : Race I O} → Reach leads out ending n s → Winner leads out ending n s
  Reach-Winner pos small start = init-Winner
  Reach-Winner pos small (later r st) =
      Step-Winner st (Reach-Inv leads out ending n pos small r) (Reach-Winner pos small r)

  -- With every slot done, the outer slot got the completion that won, or there was none that leads and
  -- it got what the last slot decided.
  pub outcome :
      {s : Race I O}
      → 0 < n
      → n < 2 ^ 32
      → Reach leads out ending n s
      → ((i : ℕ) → i < n → s.pcs i ≡ finished)
      → Led leads out ending n s ⊎ Ended leads out ending n s
  outcome {s} pos small r over =
      elim (w.decided (ground (arith, v.once, finished_lem n s pos v over))) [
        | inl led ↦ inl led
        | inr (inl ended) ↦ inr ended
        | inr (inr reserved) ↦ absurd (omega (arith, none_claimed))
      ]
    where
      v : Inv n s
      v = Reach-Inv leads out ending n pos small r

      w : Winner leads out ending n s
      w = Reach-Winner pos small r

      none_claimed : weigh is_claimed n s.pcs ≡ 0
      none_claimed =
          ground (arith, weigh_all is_claimed n s.pcs 0 (λ i b. ground (arith, over i b)))

  -- A slot that is done was completed.
  pub heard :
      {s : Race I O}
      → 0 < n
      → n < 2 ^ 32
      → Reach leads out ending n s
      → (i : ℕ) → s.pcs i ≡ finished
      → (x : I) × (s.inputs i ≡ some x)
  heard {s} pos small r i e = elim (Option-cases (s.inputs i)) [
    | inl silent ↦ absurd (ground (arith, (Reach-Winner pos small r).silent i silent))
    | inr (x, h) ↦ (x, h)
  ]
