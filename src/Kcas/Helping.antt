-- ===== src/Kcas/Helping.antt =====
-- `kcas` and `kcas_help` of src/thread/detail/multiword_kcas.cpp as wholes.
use serious_execution_librar.Prelude.{
  ℕ, zero, suc, ◌+◌, ◌<◌, ◌≤◌, ◌≡◌, ◌≢◌, ◌⊎◌, inl, inr, refl, sym, ap, subst, ◌∙◌, Bool, true,
  false, ◌&&◌, some, List, [], ◌∷◌, ◌==◌, if◌then◌else◌, update, get_elem?, length, arith,
}
use mathlib.Core.Option.{some-injective}
use serious_execution_librar.Kcas.{
  Thread, Reliable, Pointer, value, State, state_undecided, state_succeded, state_failed, KcasArg,
  Memory, Ended, finished, cas_state, mark, decide, replace, conclude, kcas_help, kcas_create_new,
  kcas,
}
use serious_execution_librar.Kcas.Marking.{Owned, Untouched, Distinct, Partly}
use serious_execution_librar.Kcas.Marked.{Marked, Ends, mark-Marked}
use serious_execution_librar.Kcas.Replacing.{Pending, Replaced, replace-Replaced}

-- Whether every word held the expected value.
abbrev pub all_expected : (ℕ → ℕ) → List KcasArg → Bool
all_expected before [] = true
all_expected before (x ∷ args) = (before x.a == x.e) && all_expected before args

abbrev pub decision : Bool → State
decision b = if b then state_succeded else state_failed

all_expected-true :
    (before : ℕ → ℕ) (args : List KcasArg)
    → ((j : ℕ) (x : KcasArg) → get_elem? args j ≡ some x → before x.a ≡ x.e)
    → all_expected before args ≡ true
all_expected-true before [] h = refl
all_expected-true before (x ∷ args) h =
    ground (arith, h 0 x refl, all_expected-true before args (λ j y e. h (suc j) y e))

all_expected-false :
    (before : ℕ → ℕ) (args : List KcasArg) (j : ℕ) (x : KcasArg)
    → get_elem? args j ≡ some x
    → before x.a ≢ x.e
    → all_expected before args ≡ false
all_expected-false before [] j x e other = absurd (ground (arith, e))
all_expected-false before (y ∷ args) zero x e other =
    let apart : before y.a ≢ y.e =
      subst (λ z. before z.a ≢ z.e) (sym (some-injective y x e)) other in
    ground (arith, apart)
all_expected-false before (y ∷ args) (suc j) x e other =
    ground (arith, all_expected-false before args j x e other)

module _ (me : Thread) ⦃reliable : Reliable me⦄ (des : Pointer) (args : List KcasArg)
    (before : ℕ → ℕ) (distinct : Distinct args) where
  -- The second loop, in the state that was decided.
  conclude-Replaced :
      (fuel : ℕ) (m : Memory) (b : Bool)
      → length args < fuel
      → Owned des args (decision b) m
      → Pending me des args before (decision b) b m
      → (t : Memory) × (conclude me fuel des m ≡ (finished b, t))
        × Replaced me des args before (decision b) b m t
  unfolding conclude
  conclude-Replaced fuel m true l o p =
      let ran : (t : Memory) × (replace me fuel des true 0 m ≡ (finished true, t))
          × Replaced me des args before state_succeded true m t =
        replace-Replaced me des args before state_succeded true distinct fuel m l o p in
      (ran.0, ground (arith, ran.1, o.same_sequence, o.same_state), ran.2)
  conclude-Replaced fuel m false l o p =
      let ran : (t : Memory) × (replace me fuel des false 0 m ≡ (finished false, t))
          × Replaced me des args before state_failed false m t =
        replace-Replaced me des args before state_failed false distinct fuel m l o p in
      (ran.0, ground (arith, ran.1, o.same_sequence, o.same_state), ran.2)

  abbrev decided : State → Memory → Memory
  decided state m = record m {
    kcas_pool = update m.kcas_pool des.pid (record (m.kcas_pool des.pid) { state = state });
  }

  -- From the end of the first loop.
  decide-Replaced :
      (fuel : ℕ) (m : Memory) (b : Bool)
      → length args < fuel
      → Owned des args state_undecided m
      → Pending me des args before (decision b) b m
      → (t : Memory) × (decide me fuel des (finished (decision b), m) ≡ (finished b, t))
        × Replaced me des args before (decision b) b m t
  unfolding cas_state
  decide-Replaced fuel m b l o p =
      let owned : Owned des args (decision b) (decided (decision b) m) = record {
        same_sequence = ground (arith, o.same_sequence);
        same_args = ground (arith, o.same_args);
        same_state = ground arith;
      } in
      let ran : (t : Memory) × (conclude me fuel des (decided (decision b) m) ≡ (finished b, t))
          × Replaced me des args before (decision b) b (decided (decision b) m) t =
        conclude-Replaced fuel (decided (decision b) m) b l owned p in
      (
        ran.0,
        ground (arith, ran.1, o.same_sequence, o.same_state),
        record { owned = ran.2.owned; replaced = ran.2.replaced; untouched = ran.2.untouched },
      )

  -- What the kcas as a whole leaves.
  abbrev pub Done : Memory → Ended Bool × Memory → Type 0
  Done m r =
      (t : Memory) × (r ≡ (finished (all_expected before args), t))
      × Replaced me des args before (decision (all_expected before args)) (all_expected before args)
          m t

  -- What the first loop has found out.
  Marked-decision :
      (help : Pointer → Memory → Memory) (m t : Memory) (state : State)
      → Marked me help des args before distinct m state t
      → (state ≡ decision (all_expected before args))
        × Pending me des args before
            (decision (all_expected before args))
            (all_expected before args)
            t
  Marked-decision help m t state v = elim v.outcome [
    | inl (succeded, marks) ↦
        let all : all_expected before args ≡ true =
          all_expected-true before args (λ j x e. ground (arith, marks j x e, v.partly j x e)) in
        (succeded ∙ ap decision (sym all), λ j x e. inr (marks j x e, ground (arith, all)))
    | inr (failed, (j, x, e, other)) ↦
        let one : all_expected before args ≡ false = all_expected-false before args j x e other in
        (failed ∙ ap decision (sym one), λ k y f. ground (arith, one, v.partly k y f))
  ]

  after_mark :
      (help : Pointer → Memory → Memory) (fuel : ℕ) (m t : Memory) (state : State)
      → length args < fuel
      → Marked me help des args before distinct m state t
      → Done m (decide me fuel des (finished state, t))
  after_mark help fuel m t state l v =
      let found : (state ≡ decision (all_expected before args))
          × Pending me des args before (decision (all_expected before args))
              (all_expected before args) t =
        Marked-decision help m t state v in
      let ran : Done t (decide me fuel des (finished (decision (all_expected before args)), t)) =
        decide-Replaced fuel t (all_expected before args) l v.owned found.1 in
      (
        ran.0,
        rw found.0 ran.1,
        record {
          owned = ran.2.owned;
          replaced = ran.2.replaced;
          untouched = λ a off. ran.2.untouched a off ∙ v.untouched a off;
        },
      )

  help_undecided :
      (fuel : ℕ) (m : Memory)
      → length args + 2 ≤ fuel
      → Owned des args state_undecided m
      → Partly des args before m
      → Done m (kcas_help me (suc fuel) des m)
  unfolding kcas_help
  help_undecided fuel m l o p = after marked.0 marked.1 marked.2 marked.3
    where
      help : Pointer → Memory → Memory
      help other t = (kcas_help me fuel other t).1

      marked : Ends me help des args before distinct fuel 0 m
      marked =
          mark-Marked me help des args before distinct fuel 0 m (omega arith) (omega arith)
            (record { owned = o; partly = p; below = λ j x e b. absurd (omega arith) })

      first : kcas_help me (suc fuel) des m ≡ decide me fuel des (mark me help fuel des 0 m)
      first = ground (arith, o.same_sequence, o.same_state)

      after :
          (state : State) (t : Memory)
          → mark me help fuel des 0 m ≡ (finished state, t)
          → Marked me help des args before distinct m state t
          → Done m (kcas_help me (suc fuel) des m)
      after state t run v =
          let ran : Done m (decide me fuel des (finished state, t)) =
            after_mark help fuel m t state (omega arith) v in
          (ran.0, first ∙ ap (decide me fuel des) run ∙ ran.1, ran.2)

  help_decided :
      (fuel : ℕ) (m : Memory)
      → length args < fuel
      → Owned des args (decision (all_expected before args)) m
      → Pending me des args before
          (decision (all_expected before args))
          (all_expected before args)
          m
      → Done m (kcas_help me (suc fuel) des m)
  unfolding kcas_help
  help_decided fuel m l o p =
      let ran : Done m (conclude me fuel des m) =
        conclude-Replaced fuel m (all_expected before args) l o p in
      (ran.0, ground (arith, o.same_sequence, o.same_state, ran.1), ran.2)

  pub kcas_help_lem :
      (fuel : ℕ) (m : Memory)
      → length args + 3 ≤ fuel
      → (Owned des args state_undecided m × Partly des args before m)
        ⊎ (Owned des args (decision (all_expected before args)) m
            × Pending me des args before
                (decision (all_expected before args))
                (all_expected before args)
                m)
      → (t : Memory) × (kcas_help me fuel des m ≡ (finished (all_expected before args), t))
        × Owned des args (decision (all_expected before args)) t
        × ((j : ℕ) (x : KcasArg)
            → get_elem? args j ≡ some x
            → t.words x.a ≡ value (if all_expected before args then x.n else before x.a))
        × Untouched args m t
  kcas_help_lem zero m l p = absurd (omega arith)
  kcas_help_lem (suc fuel) m l (inl (o, p)) =
      let ran : Done m (kcas_help me (suc fuel) des m) = help_undecided fuel m (omega arith) o p in
      (ran.0, ran.1, ran.2.owned, ran.2.replaced, ran.2.untouched)
  kcas_help_lem (suc fuel) m l (inr (o, p)) =
      let ran : Done m (kcas_help me (suc fuel) des m) = help_decided fuel m (omega arith) o p in
      (ran.0, ran.1, ran.2.owned, ran.2.replaced, ran.2.untouched)

module _ (me : Thread) ⦃reliable : Reliable me⦄ (args : List KcasArg) (before : ℕ → ℕ)
    (distinct : Distinct args) where
  -- By a thread none of whose weak compare-exchanges fails spuriously:
  -- a kcas on words with distinct addresses that no other thread disturbs, with fuel for three rounds more than it
  -- has words, ends and does what one atomic step would: it gives whether all words held their expected
  -- values, puts the new values into them if so and changes none if not, and leaves all other words
  -- alone.
  pub kcas_lem :
      (fuel : ℕ) (m : Memory)
      → length args + 3 ≤ fuel
      → ((j : ℕ) (x : KcasArg) → get_elem? args j ≡ some x → m.words x.a ≡ value (before x.a))
      → (t : Memory) × (kcas me fuel args m ≡ (finished (all_expected before args), t))
        × ((j : ℕ) (x : KcasArg)
            → get_elem? args j ≡ some x
            → t.words x.a ≡ value (if all_expected before args then x.n else before x.a))
        × Untouched args m t
  unfolding kcas kcas_create_new
  kcas_lem fuel m l p =
      let des : Pointer = (kcas_create_new me args m).0 in
      let start : Memory = (kcas_create_new me args m).1 in
      let owned : Owned des args state_undecided start = record {
        same_sequence = ground arith;
        same_args = ground arith;
        same_state = ground arith;
      } in
      let ran : (t : Memory) × (kcas_help me fuel des start
            ≡ (finished (all_expected before args), t))
          × Owned des args (decision (all_expected before args)) t
          × ((j : ℕ) (x : KcasArg)
              → get_elem? args j ≡ some x
              → t.words x.a ≡ value (if all_expected before args then x.n else before x.a))
          × Untouched args start t =
        kcas_help_lem me des args before distinct fuel start l
          (inl (owned, λ j x e. inl (p j x e))) in
      (ran.0, ran.1, ran.3, ran.4)
