-- ===== src/Kcas/Replacing.antt =====
-- The loop of `kcas_help` in src/thread/detail/multiword_kcas.cpp that replaces the marks.
use serious_execution_librar.Prelude.{
  ℕ, zero, suc, ◌+◌, ◌<◌, ◌≤◌, ◌≡◌, ◌⊎◌, inl, inr, refl, sym, ◌∙◌, Bool, true, false, none, some,
  List, ◌==◌, if◌then◌else◌, get_elem?, length, arith, Bool-cases, Option-cases,
}
use serious_execution_librar.Kcas.{
  Thread, Reliable, Pointer, value, kcas_flagged, State, KcasArg, Memory, finished, goes, ends,
  compare_exchange, replace, replace_round,
}
use serious_execution_librar.Kcas.Marking.{
  Owned, Untouched, get_elem?-none, get_elem?-some, Distinct, same_arg, other_index,
}

module _ (me : Thread) ⦃reliable : Reliable me⦄ (des : Pointer) (args : List KcasArg)
    (before : ℕ → ℕ) (state : State) (succeded : Bool) where
  -- What a word ends with, and what the loop writes into it.
  abbrev pub result : KcasArg → ℕ
  result x = if succeded then x.n else before x.a

  abbrev pub written : KcasArg → ℕ
  written x = if succeded then x.n else x.e

  -- Each word holds its result, or its mark will be replaced by that.
  abbrev pub Pending : Memory → Type 0
  Pending m =
      (j : ℕ) (x : KcasArg)
      → get_elem? args j ≡ some x
      → (m.words x.a ≡ value (result x))
        ⊎ ((m.words x.a ≡ kcas_flagged des) × (written x ≡ result x))

  pub record Replaced (m t : Memory) : Type 0 where
    pub owned : Owned des args state t
    pub replaced :
        (j : ℕ) (x : KcasArg) → get_elem? args j ≡ some x → t.words x.a ≡ value (result x)
    pub untouched : Untouched args m t

  record Ready (i : ℕ) (m : Memory) : Type 0 where
    owned : Owned des args state m
    pending : Pending m
    below :
        (j : ℕ) (x : KcasArg) → get_elem? args j ≡ some x → j < i → m.words x.a ≡ value (result x)

  abbrev step : KcasArg → Memory → Memory
  step x m = compare_exchange x.a (kcas_flagged des) (value (written x)) m

  step-pool : (x : KcasArg) (m : Memory) → (step x m).kcas_pool ≡ m.kcas_pool
  unfolding compare_exchange
  step-pool x m = ground arith

  -- The word itself gets its result.
  step-own :
      (x : KcasArg) (m : Memory)
      → (m.words x.a ≡ value (result x))
        ⊎ ((m.words x.a ≡ kcas_flagged des) × (written x ≡ result x))
      → (step x m).words x.a ≡ value (result x)
  unfolding compare_exchange
  step-own x m (inl held) = ground (arith, held)
  step-own x m (inr (marked, same)) = ground (arith, marked, same)

  step-other :
      (x : KcasArg) (m : Memory) (a : ℕ) → (x.a == a) ≡ false → (step x m).words a ≡ m.words a
  unfolding compare_exchange
  step-other x m a other = ground (arith, other)

  module _ (distinct : Distinct args) where
    step-Ready :
        (i : ℕ) (x : KcasArg) (m : Memory)
        → Ready i m
        → get_elem? args i ≡ some x
        → Ready (i + 1) (step x m) × Untouched args m (step x m)
    step-Ready i x m r e = (
      record { owned = owned'; pending = pending'; below = below' },
      λ a off. step-other x m a (off i x e),
    )
      where
        owned' : Owned des args state (step x m)
        owned' = record {
          same_sequence = rw (step-pool x m) r.owned.same_sequence;
          same_args = rw (step-pool x m) r.owned.same_args;
          same_state = rw (step-pool x m) r.owned.same_state;
        }

        own :
            (j : ℕ) (y : KcasArg)
            → get_elem? args j ≡ some y
            → (x.a == y.a) ≡ true
            → (step x m).words y.a ≡ value (result y)
        own j y f this =
            rw (sym (same_arg args distinct i j x y e f (ground (arith, this))))
              (step-own x m (r.pending i x e))

        pending' : Pending (step x m)
        pending' j y f = elim (Bool-cases (x.a == y.a)) [
          | inl this ↦ inl (own j y f this)
          | inr other ↦ ground (arith, step-other x m y.a other, r.pending j y f)
        ]

        below' :
            (j : ℕ) (y : KcasArg)
            → get_elem? args j ≡ some y
            → j < i + 1
            → (step x m).words y.a ≡ value (result y)
        below' j y f l = elim (Bool-cases (x.a == y.a)) [
          | inl this ↦ own j y f this
          | inr other ↦
              step-other x m y.a other
              ∙ r.below j y f (omega (arith, other_index args i j x y e f other))
        ]

    round_end :
        (i : ℕ) (m : Memory)
        → Owned des args state m
        → get_elem? args i ≡ none
        → replace_round me des succeded i m ≡ ends (finished succeded) m
    unfolding replace_round
    round_end i m o e = ground (arith, o.same_sequence, o.same_args, e)

    round_next :
        (i : ℕ) (x : KcasArg) (m : Memory)
        → Owned des args state m
        → get_elem? args i ≡ some x
        → replace_round me des succeded i m ≡ goes (i + 1) (step x m)
    unfolding replace_round
    round_next i x m o e = ground (arith, o.same_sequence, o.same_args, e)

    goes_on :
        (fuel i : ℕ) (x : KcasArg) (m : Memory)
        → Ready i m
        → get_elem? args i ≡ some x
        → (t : Memory) × (replace me fuel des succeded (i + 1) (step x m) ≡ (finished succeded, t))
          × Replaced (step x m) t
        → (t : Memory) × (replace me (suc fuel) des succeded i m ≡ (finished succeded, t))
          × Replaced m t
    unfolding replace
    goes_on fuel i x m r e (t, run, v) = (
      t,
      rw (round_next i x m r.owned e, replace) run,
      record {
        owned = v.owned;
        replaced = v.replaced;
        untouched = λ a off. v.untouched a off ∙ (step-Ready i x m r e).1 a off;
      },
    )

    -- From any index, with fuel for a round more than are left, the loop ends.
    replace-Ready :
        (fuel i : ℕ) (m : Memory)
        → i ≤ length args
        → length args + 1 ≤ i + fuel
        → Ready i m
        → (t : Memory) × (replace me fuel des succeded i m ≡ (finished succeded, t)) × Replaced m t
    unfolding replace
    replace-Ready zero i m l f r = absurd (omega arith)
    replace-Ready (suc fuel) i m l f r = elim (Option-cases (get_elem? args i)) [
      | inl over ↦ (
        m,
        rw (round_end i m r.owned over, replace),
        record {
          owned = r.owned;
          replaced = λ j x e. r.below j x e (get_elem?-none args i j x over e);
          untouched = λ a off. refl;
        },
      )
      | inr (x, e) ↦
          let below : i < length args = get_elem?-some args i x e in
          goes_on fuel i x m r e (
            replace-Ready fuel (i + 1) (step x m) (omega arith) (omega arith)
              (step-Ready i x m r e).0)
    ]

    pub replace-Replaced :
        (fuel : ℕ) (m : Memory)
        → length args < fuel
        → Owned des args state m
        → Pending m
        → (t : Memory) × (replace me fuel des succeded 0 m ≡ (finished succeded, t)) × Replaced m t
    replace-Replaced fuel m l o p =
        replace-Ready fuel 0 m (omega arith) (omega arith)
          (record { owned = o; pending = p; below = λ j x e b. absurd (omega arith) })
