-- ===== src/Race/Protocol.antt =====
-- The order of atomic steps that the handlers of `any`, `all` and `select` follow
-- (include/sl/exec/algo/tf/par/any.hpp, all.hpp, include/sl/exec/algo/sync/select.hpp), for any choice of
-- the completions that try to win at once.
use serious_execution_librar.Prelude.{ℕ, ◌^◌, ◌<◌, ◌≡◌, Bool, true, false, Option}
use serious_execution_librar.Race.{
  pending, claimed, counting, settling, Race, init, lead, settle, claim_for, skip, count, trail,
}
use serious_execution_librar.Race.Invariant.{
  Inv, init-Inv, lead-Inv, settle-Inv, claim_for-Inv, skip-Inv, count-Inv, trail-Inv,
}

-- `leads` says which completions of an inner slot try to win before they count, `out` what they give,
-- and `ending` what the last one gives otherwise.
module _ {I O : Type 0} (leads : I → Bool) (out : ℕ → I → O) (ending : (ℕ → Option I) → I → O)
    (n : ℕ) where
  pub data Step (s : Race I O) : Race I O → Type 0 where
    leading :
        (i : ℕ) (x : I) → i < n → s.pcs i ≡ pending → leads x ≡ true → Step s (lead i x (out i x) s)
    trailing :
        (i : ℕ) (x : I) → i < n → s.pcs i ≡ pending → leads x ≡ false → Step s (trail n i x s)
    counts : (i : ℕ) → i < n → s.pcs i ≡ counting → Step s (count n i s)
    settles :
        (i : ℕ) (x : I) → i < n → s.pcs i ≡ settling x → Step s (settle i (ending s.inputs x) s)
    claims : (i : ℕ) → i < n → s.pcs i ≡ pending → s.done ≡ false → Step s (claim_for i s)
    skips :
        (i : ℕ) (x : I) → i < n → s.pcs i ≡ claimed → leads x ≡ true → Step s (skip i x (out i x) s)

  pub data Reach : Race I O → Type 0 where
    start : Reach init
    later : {s t : Race I O} → Reach s → Step s t → Reach t

  module _ (positive : 0 < n) (small : n < 2 ^ 32) where
    Step-Inv : {s t : Race I O} → Step s t → Inv n s → Inv n t
    Step-Inv {s} (leading i x b e l) v = lead-Inv n i small b s v x (out i x) e
    Step-Inv {s} (trailing i x b e l) v = trail-Inv n i small b s v x e
    Step-Inv {s} (counts i b e) v = count-Inv n i small b s v e
    Step-Inv {s} (settles i x b e) v = settle-Inv n i small b s v (ending s.inputs x) e
    Step-Inv {s} (claims i b e free) v = claim_for-Inv n i small b s v e free
    Step-Inv {s} (skips i x b e l) v = skip-Inv n i small b s v x (out i x) e

    pub Reach-Inv : {s : Race I O} → Reach s → Inv n s
    Reach-Inv start = init-Inv n positive
    Reach-Inv (later r st) = Step-Inv st (Reach-Inv r)
