-- ===== src/Kcas/Marked.antt =====
-- What the loop of `kcas_help` in src/thread/detail/multiword_kcas.cpp that marks the words leaves.
use serious_execution_librar.Prelude.{
  ℕ, zero, suc, ◌+◌, ◌<◌, ◌≤◌, ◌≡◌, ◌≢◌, ◌⊎◌, inl, inr, refl, sym, ap, ◌∙◌, false, some, List, ◌==◌,
  update, get_elem?, length, arith, Bool-cases, Option-cases,
}
use serious_execution_librar.Kcas.{
  Thread, Reliable, Pointer, value, kcas_flagged, State, state_undecided, state_succeded,
  state_failed, KcasArg, Memory, finished, dcss, mark, mark_round, goes, mark_round, goes,
}
use serious_execution_librar.Kcas.Marking.{
  Owned, Untouched, get_elem?-none, get_elem?-some, Distinct, same_at, same_arg, other_index,
  Partly, dcss_hit, dcss_miss, marking, marked_by, round_end, round_next, round_failed, mark_goes,
  mark-ends,
}

module _ (me : Thread) ⦃reliable : Reliable me⦄ (help : Pointer → Memory → Memory) (des : Pointer)
    (args : List KcasArg) (before : ℕ → ℕ) (distinct : Distinct args) where
  -- The words below an index are marked.
  abbrev pub Below : ℕ → Memory → Type 0
  Below i m =
      (j : ℕ) (x : KcasArg) → get_elem? args j ≡ some x → j < i → m.words x.a ≡ kcas_flagged des

  -- From `m`, the loop has ended in `t` with this state.
  pub record Marked (m : Memory) (state : State) (t : Memory) : Type 0 where
    pub owned : Owned des args state_undecided t
    pub partly : Partly des args before t
    pub untouched : Untouched args m t
    pub outcome :
        ((state ≡ state_succeded)
          × ((j : ℕ) (x : KcasArg) → get_elem? args j ≡ some x → t.words x.a ≡ kcas_flagged des))
        ⊎ ((state ≡ state_failed)
            × ((j : ℕ) × (x : KcasArg) × (get_elem? args j ≡ some x) × (before x.a ≢ x.e)))

  -- The state of the proof before a round.
  pub record Ready (i : ℕ) (m : Memory) : Type 0 where
    pub owned : Owned des args state_undecided m
    pub partly : Partly des args before m
    pub below : Below i m

  Owned-pool :
      (m t : Memory)
      → Owned des args state_undecided m
      → t.kcas_pool ≡ m.kcas_pool
      → Owned des args state_undecided t
  Owned-pool m t o e = record {
    same_sequence = rw (e) o.same_sequence;
    same_args = rw (e) o.same_args;
    same_state = rw (e) o.same_state;
  }

  -- A round whose dcss puts the mark.
  hit-Ready :
      (fuel i : ℕ) (x : KcasArg) (m : Memory)
      → 0 < fuel
      → Ready i m
      → get_elem? args i ≡ some x
      → m.words x.a ≡ value x.e
      → before x.a ≡ x.e
      → Ready (i + 1) (marked_by me help des args fuel x m)
        × Untouched args m (marked_by me help des args fuel x m)
  hit-Ready fuel i x m b r e w same = both
    where
      hit :
          ((dcss me fuel (marking me des x) m).0 ≡ some (value x.e))
          × ((dcss me fuel (marking me des x) m).1.kcas_pool ≡ m.kcas_pool)
          × ((a : ℕ)
              → (dcss me fuel (marking me des x) m).1.words a
                ≡ update m.words x.a (kcas_flagged des) a)
      hit = dcss_hit me des x args fuel m b r.owned w

      partly' : Partly des args before (marked_by me help des args fuel x m)
      partly' j y f = elim (Bool-cases (x.a == y.a)) [
        | inl this ↦ inr (
          hit.2 y.a ∙ ground (arith, this),
          rw (sym (same_arg args distinct i j x y e f (ground (arith, this)))) same,
        )
        | inr other ↦
            let kept : (marked_by me help des args fuel x m).words y.a ≡ m.words y.a =
              hit.2 y.a ∙ ground (arith, other) in
            ground (arith, kept, r.partly j y f)
      ]

      below' : Below (i + 1) (marked_by me help des args fuel x m)
      below' j y f l = elim (Bool-cases (x.a == y.a)) [
        | inl this ↦ hit.2 y.a ∙ ground (arith, this)
        | inr other ↦
            hit.2 y.a
            ∙ ground (arith, other)
            ∙ r.below j y f (omega (arith, other_index args i j x y e f other))
      ]

      both :
          Ready (i + 1) (marked_by me help des args fuel x m)
          × Untouched args m (marked_by me help des args fuel x m)
      both = (
        record {
          owned = Owned-pool m (marked_by me help des args fuel x m) r.owned hit.1;
          partly = partly';
          below = below';
        },
        λ a off. hit.2 a ∙ ground (arith, off i x e),
      )

  -- A round on a word that is marked already.
  marked-Ready :
      (fuel i : ℕ) (x : KcasArg) (m : Memory)
      → 0 < fuel
      → Ready i m
      → get_elem? args i ≡ some x
      → m.words x.a ≡ kcas_flagged des
      → Ready (i + 1) (marked_by me help des args fuel x m)
        × Untouched args m (marked_by me help des args fuel x m)
  marked-Ready fuel i x m b r e w = both
    where
      miss :
          ((dcss me fuel (marking me des x) m).0 ≡ some (m.words x.a))
          × ((dcss me fuel (marking me des x) m).1.kcas_pool ≡ m.kcas_pool)
          × ((a : ℕ) → (dcss me fuel (marking me des x) m).1.words a ≡ m.words a)
      miss = dcss_miss me des x fuel m b (inr w)

      below' : Below (i + 1) (marked_by me help des args fuel x m)
      below' j y f l = elim (Bool-cases (j == i)) [
        | inl this ↦ miss.2 y.a ∙ rw (sym (same_at args i j x y e f (ground (arith, this)))) w
        | inr other ↦ miss.2 y.a ∙ r.below j y f (ground (arith, other))
      ]

      both :
          Ready (i + 1) (marked_by me help des args fuel x m)
          × Untouched args m (marked_by me help des args fuel x m)
      both = (
        record {
          owned = Owned-pool m (marked_by me help des args fuel x m) r.owned miss.1;
          partly = λ j y f. ground (arith, miss.2 y.a, r.partly j y f);
          below = below';
        },
        λ a off. miss.2 a,
      )

  Untouched-trans : (m t u : Memory) → Untouched args m t → Untouched args t u → Untouched args m u
  Untouched-trans m t u p q a off = q a off ∙ p a off

  -- The loop ends from here.
  abbrev pub Ends : ℕ → ℕ → Memory → Type 0
  Ends fuel i m =
      (state : State) × (t : Memory) × (mark me help fuel des i m ≡ (finished state, t))
      × Marked m state t

  goes-Ends :
      (fuel i : ℕ) (x : KcasArg) (m : Memory)
      → mark_round me help fuel des i m ≡ goes (i + 1) (marked_by me help des args fuel x m)
      → Untouched args m (marked_by me help des args fuel x m)
      → Ends fuel (i + 1) (marked_by me help des args fuel x m)
      → Ends (suc fuel) i m
  goes-Ends fuel i x m turn kept (state, t, run, v) = (
    state,
    t,
    mark_goes me help des args fuel i (i + 1) m _ turn ∙ run,
    record {
      owned = v.owned;
      partly = v.partly;
      untouched = Untouched-trans m (marked_by me help des args fuel x m) t kept v.untouched;
      outcome = v.outcome;
    },
  )

  -- A round on a word with another value than the expected one ends the loop.
  failed-Ends :
      (fuel i : ℕ) (x : KcasArg) (m : Memory)
      → 0 < fuel
      → Ready i m
      → get_elem? args i ≡ some x
      → m.words x.a ≡ value (before x.a)
      → (before x.a == x.e) ≡ false
      → Ends (suc fuel) i m
  failed-Ends fuel i x m b r e w other =
      let miss : ((dcss me fuel (marking me des x) m).0 ≡ some (m.words x.a))
          × ((dcss me fuel (marking me des x) m).1.kcas_pool ≡ m.kcas_pool)
          × ((a : ℕ) → (dcss me fuel (marking me des x) m).1.words a ≡ m.words a) =
        dcss_miss me des x fuel m b (inl (before x.a, w, other)) in
      (
        state_failed,
        marked_by me help des args fuel x m,
        mark-ends me help des args fuel i m _ _ (
            round_failed me help des args fuel i (before x.a) x m r.owned e (miss.0 ∙ ap some w)
              other),
        record {
          owned = Owned-pool m (marked_by me help des args fuel x m) r.owned miss.1;
          partly = λ j y f. ground (arith, miss.2 y.a, r.partly j y f);
          untouched = λ a off. miss.2 a;
          outcome = inr (refl, (i, x, e, ground (arith, other)));
        },
      )

  round-Ends :
      (fuel i : ℕ) (x : KcasArg) (m : Memory)
      → 0 < fuel
      → Ready i m
      → get_elem? args i ≡ some x
      → ((t : Memory) → Ready (i + 1) t → Ends fuel (i + 1) t)
      → Ends (suc fuel) i m
  round-Ends fuel i x m b r e rest = elim (r.partly i x e) [
    | inr (w, same) ↦
        let next : Ready (i + 1) (marked_by me help des args fuel x m)
            × Untouched args m (marked_by me help des args fuel x m) =
          marked-Ready fuel i x m b r e w in
        goes-Ends fuel i x m
          (round_next me help des args fuel i x m r.owned e
            (inr ((dcss_miss me des x fuel m b (inr w)).0 ∙ ap some w)))
          next.1 (rest _ next.0)
    | inl w ↦ elim (Bool-cases (before x.a == x.e)) [
      | inr other ↦ failed-Ends fuel i x m b r e w other
      | inl same ↦
          let expected : before x.a ≡ x.e = ground (arith, same) in
          let hits : m.words x.a ≡ value x.e = w ∙ ap value expected in
          let next : Ready (i + 1) (marked_by me help des args fuel x m)
              × Untouched args m (marked_by me help des args fuel x m) =
            hit-Ready fuel i x m b r e hits expected in
          goes-Ends fuel i x m
            (round_next me help des args fuel i x m r.owned e
              (inl (dcss_hit me des x args fuel m b r.owned hits).0))
            next.1 (rest _ next.0)
    ]
  ]

  -- From any index, with fuel for two rounds more than are left, the loop ends.
  pub mark-Marked :
      (fuel i : ℕ) (m : Memory)
      → i ≤ length args
      → length args + 2 ≤ i + fuel
      → Ready i m
      → Ends fuel i m
  mark-Marked zero i m l f r = absurd (omega arith)
  mark-Marked (suc fuel) i m l f r = elim (Option-cases (get_elem? args i)) [
    | inl over ↦ (
      state_succeded,
      m,
      mark-ends me help des args fuel i m m _ (round_end me help des args fuel i m r.owned over),
      record {
        owned = r.owned;
        partly = r.partly;
        untouched = λ a off. refl;
        outcome = inl (refl, λ j x e. r.below j x e (get_elem?-none args i j x over e));
      },
    )
    | inr (x, e) ↦
        let below : i < length args = get_elem?-some args i x e in
        round-Ends fuel i x m (omega arith) r e
          (λ t next. mark-Marked fuel (i + 1) t (omega arith) (omega arith) next)
  ]
