-- ===== src/Par/Select.antt =====
-- include/sl/exec/algo/sync/select.hpp, `select_connection`: its handlers. The flag
-- `done_` is a word that `kcas` moves from 0 to 1, and that a channel may move for a case beforehand.
pub mod Cases
mod Tests
use serious_execution_librar.Prelude.{
  ℕ, refl, dec_lt, ◌≢◌, ◌+◌, ◌^◌, ◌<◌, ◌≤◌, ◌≡◌, ◌⊎◌, inl, inr, Bool, true, false, Option, none,
  some, List, [], ◌∷◌, arith, length,
}
use serious_execution_librar.Slot.{Completion, value, error, null}
use serious_execution_librar.Race.{
  Pc, pending, claimed, counting, settling, finished, Race, init, lead, settle, claim_for, skip,
  count, trail,
}
use serious_execution_librar.Race.Invariant.{Inv, finished_lem, deleted_lem}
use serious_execution_librar.Race.Protocol
use serious_execution_librar.Race.Protocol.{Reach-Inv}
use serious_execution_librar.Race.Winner.{outcome}

-- Errors are `meta::unit`. All cases give values of one type here, each to a functor of its own.
abbrev pub Select : Type 0 → Type 0 → Type 0
Select V W = Race (Completion V (Unit {0})) (Completion W (Unit {0}))

module _ {V W : Type 0} (functor : ℕ → V → W) where
  -- `set_value_impl<true>` up to and with `check_done`: the functor is applied and the slot completed only
  -- by the winner.
  pub set_value_impl : ℕ → V → Select V W → Select V W
  set_value_impl index v s = lead index (value v) (value (functor index v)) s

  -- `set_value_impl<false>`, after the channel has claimed the flag.
  pub set_value_skip_done : ℕ → V → Select V W → Select V W
  set_value_skip_done index v s = skip index (value v) (value (functor index v)) s

  pub set_error_impl : ℕ → ℕ → Select V W → Select V W
  set_error_impl n index s = trail n index (error tt) s

  pub set_null_impl : ℕ → ℕ → Select V W → Select V W
  set_null_impl n index s = trail n index null s

  -- What the last of the cases without a value does.
  abbrev no_value : Completion V (Unit {0}) → Completion W (Unit {0})
  no_value (value v) = null
  no_value (error e) = error tt
  no_value null = null

  pub end_value : ℕ → ℕ → Select V W → Select V W
  end_value n index s = count n index s

  pub end_last : ℕ → Completion V (Unit {0}) → Select V W → Select V W
  end_last index r s = settle index (no_value r) s

  -- `n` cases, each completed at most once, with their handlers and a channel's claims interleaved.
  pub data Step (n : ℕ) (s : Select V W) : Select V W → Type 0 where
    on_value : (i : ℕ) (v : V) → i < n → s.pcs i ≡ pending → Step n s (set_value_impl i v s)
    on_claim : (i : ℕ) → i < n → s.pcs i ≡ pending → s.done ≡ false → Step n s (claim_for i s)
    on_skip : (i : ℕ) (v : V) → i < n → s.pcs i ≡ claimed → Step n s (set_value_skip_done i v s)
    on_error : (i : ℕ) → i < n → s.pcs i ≡ pending → Step n s (set_error_impl n i s)
    on_null : (i : ℕ) → i < n → s.pcs i ≡ pending → Step n s (set_null_impl n i s)
    ends_value : (i : ℕ) → i < n → s.pcs i ≡ counting → Step n s (end_value n i s)
    ends_last :
        (i : ℕ) (r : Completion V (Unit {0}))
        → i < n
        → s.pcs i ≡ settling r
        → Step n s (end_last i r s)

  pub data Reach (n : ℕ) : Select V W → Type 0 where
    start : Reach n init
    later : {s t : Select V W} → Reach n s → Step n s t → Reach n t

  abbrev is_value : Completion V (Unit {0}) → Bool
  is_value (value v) = true
  is_value _ = false

  abbrev applied : ℕ → Completion V (Unit {0}) → Completion W (Unit {0})
  applied i (value v) = value (functor i v)
  applied i _ = null

  abbrev last :
      (ℕ → Option (Completion V (Unit {0}))) → Completion V (Unit {0}) → Completion W (Unit {0})
  last inputs r = no_value r

  by_protocol : {n : ℕ} {s t : Select V W} → Step n s t → Protocol.Step is_value applied last n s t
  unfolding set_value_impl set_value_skip_done set_error_impl set_null_impl end_value end_last
  by_protocol (on_value i v b e) = Protocol.Step.leading i (value v) b e refl
  by_protocol (on_claim i b e free) = Protocol.Step.claims i b e free
  by_protocol (on_skip i v b e) = Protocol.Step.skips i (value v) b e refl
  by_protocol (on_error i b e) = Protocol.Step.trailing i (error tt) b e refl
  by_protocol (on_null i b e) = Protocol.Step.trailing i null b e refl
  by_protocol (ends_value i b e) = Protocol.Step.counts i b e
  by_protocol (ends_last i r b e) = Protocol.Step.settles i r b e

  Reach-protocol : {n : ℕ} {s : Select V W} → Reach n s → Protocol.Reach is_value applied last n s
  Reach-protocol start = Protocol.Reach.start
  Reach-protocol (later r st) = Protocol.Reach.later (Reach-protocol r) (by_protocol st)

  module _ {n : ℕ} {s : Select V W} (positive : 0 < n) (small : n < 2 ^ 32) (r : Reach n s) where
    inv : Inv n s
    inv = Reach-Inv is_value applied last n positive small (Reach-protocol r)

    -- At any time the slot of `select` was completed once at most, at most one cancellation and at most
    -- one deletion were scheduled, and with a deletion scheduled every case is done.
    pub select_safe :
        (i : ℕ)
        → i < n
        → (length s.calls ≤ 1)
          × (length s.cancels ≤ 1)
          × (s.deletes ≤ 1)
          × ((s.deletes ≡ 0) ⊎ (s.pcs i ≡ finished))
    select_safe i b = (
      ground (arith, inv.once),
      ground (arith, inv.once, inv.few_cancels),
      ground (arith, inv.last_one),
      elim (dec_lt 0 s.deletes) [
        | yes deleted ↦ inr (deleted_lem n s inv deleted i b)
        | no p ↦ inl (omega arith)
      ],
    )

    -- When every case is done, the slot of `select` was completed exactly once and the deletion was
    -- scheduled exactly once. Either a case `j` had a value, its functor's result was given and the
    -- cancellation spares `j`; or no case had a value, and error or null was given.
    pub select_outcome :
        ((i : ℕ) → i < n → s.pcs i ≡ finished)
        → (length s.calls ≡ 1)
          × (s.deletes ≡ 1)
          × (((j : ℕ) × (v : V) × (s.inputs j ≡ some (value v))
                × (s.calls ≡ value (functor j v) ∷ [])
                × (s.cancels ≡ j ∷ []))
              ⊎ (((i : ℕ) (v : V) → i < n → s.inputs i ≢ some (value v))
                  × ((s.calls ≡ error tt ∷ []) ⊎ (s.calls ≡ null ∷ []))))
    select_outcome over = (
      (finished_lem n s positive inv over).0,
      (finished_lem n s positive inv over).1,
      elim (outcome is_value applied last n positive small (Reach-protocol r) over) [
        | inl (j, value v, l, input, calls, cancels) ↦ inl (j, v, input, calls, cancels)
        | inl (j, error e, l, input, calls, cancels) ↦ cc
        | inl (j, null, l, input, calls, cancels) ↦ cc
        | inr (j, x, l, input, calls, full, none_led) ↦
            inr (λ i v b h. cc (none_led i (value v) b h), given x calls)
      ],
    )
      where
        given :
            (x : Completion V (Unit {0}))
            → s.calls ≡ no_value x ∷ []
            → (s.calls ≡ error tt ∷ []) ⊎ (s.calls ≡ null ∷ [])
        given (value v) e = inr e
        given (error u) e = inl e
        given null e = inr e
