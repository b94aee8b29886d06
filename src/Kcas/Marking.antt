-- ===== src/Kcas/Marking.antt =====
-- The loop of `kcas_help` in src/thread/detail/multiword_kcas.cpp that marks the words by dcss.
use serious_execution_librar.Prelude.{
  ℕ, zero, suc, ◌+◌, ◌<◌, ◌≡◌, ◌≢◌, ◌⊎◌, inl, inr, sym, ap, ◌∙◌, true, false, none, some, List, [],
  ◌∷◌, ◌==◌, update, get_elem?, length, arith,
}
use mathlib.Core.Option.{some-injective}
use serious_execution_librar.Kcas.{
  Thread, Reliable, Pointer, value, kcas_flagged, State, state_undecided, state_succeded,
  state_failed, KcasArg, is_undecided, Dcss, Memory, Ended, finished, compare_exchange,
  compare_exchange_weak, Word_eq, dcss_flagged, read_state, a1_is_e1, dcss_help, dcss_create_new,
  dcss_loop, dcss, mark, mark_round, ends, goes,
}

-- The descriptor behind `des` is the one of `args`, in this state.
pub record Owned (des : Pointer) (args : List KcasArg) (state : State) (m : Memory) : Type 0 where
  pub same_sequence : (m.kcas_pool des.pid).sequence ≡ des.sequence
  pub same_args : (m.kcas_pool des.pid).args ≡ args
  pub same_state : (m.kcas_pool des.pid).state ≡ state

-- Outside the words of `args`, nothing has changed.
abbrev pub Untouched : List KcasArg → Memory → Memory → Type 0
Untouched args m t =
    (a : ℕ)
    → ((j : ℕ) (x : KcasArg) → get_elem? args j ≡ some x → (x.a == a) ≡ false)
    → t.words a ≡ m.words a

pub get_elem?-none :
    (args : List KcasArg) (i j : ℕ) (x : KcasArg)
    → get_elem? args i ≡ none
    → get_elem? args j ≡ some x
    → j < i
get_elem?-none [] i j x e f = absurd (ground (arith, f))
get_elem?-none (y ∷ args) zero j x e f = absurd (ground (arith, e))
get_elem?-none (y ∷ args) (suc i) zero x e f = omega arith
get_elem?-none (y ∷ args) (suc i) (suc j) x e f = omega (arith, get_elem?-none args i j x e f)

module _ (me : Thread) ⦃reliable : Reliable me⦄ where
  loop_hit :
      (fuel : ℕ) (own : Pointer) (d : Dcss) (c : Memory)
      → Word_eq (c.words d.a2) d.e2 ≡ true
      → dcss_loop me (suc fuel) own d c
        ≡ (some d.e2, record c { words = update c.words d.a2 (dcss_flagged own) })
  unfolding dcss_loop compare_exchange_weak compare_exchange
  loop_hit fuel own d c e = ground (arith, e, reliable.never d.a2 d.e2 c)

  help_hit :
      (own : Pointer) (d : Dcss) (c : Memory)
      → (c.dcss_pool own.pid).sequence ≡ own.sequence
      → (c.dcss_pool own.pid).immutables ≡ d
      → a1_is_e1 d.a1 c ≡ true
      → c.words d.a2 ≡ dcss_flagged own
      → dcss_help me own c ≡ record c { words = update c.words d.a2 d.n2 }
  unfolding dcss_help compare_exchange_weak compare_exchange
  help_hit own d c e f g w = ground (arith, e, f, g, w, reliable.never d.a2 (dcss_flagged own) c)

module _ (me : Thread) ⦃reliable : Reliable me⦄ (des : Pointer) (arg : KcasArg) where
  abbrev pub marking : Dcss
  marking = record { a1 = is_undecided des; a2 = arg.a; e2 = value arg.e; n2 = kcas_flagged des }

  abbrev own : Memory → Pointer
  own m = (dcss_create_new me marking m).0

  abbrev created : Memory → Memory
  created m = (dcss_create_new me marking m).1

  abbrev flagged : Memory → Memory
  flagged m = record (created m) { words = update (created m).words arg.a (dcss_flagged (own m)) }

  looped :
      (fuel : ℕ) (m : Memory)
      → m.words arg.a ≡ value arg.e
      → dcss_loop me (suc fuel) (own m) marking (created m) ≡ (some (value arg.e), flagged m)
  unfolding dcss_create_new
  looped fuel m e = loop_hit me fuel (own m) marking (created m) (ground (arith, e))

  helped :
      (args : List KcasArg) (m : Memory)
      → Owned des args state_undecided m
      → dcss_help me (own m) (flagged m)
        ≡ record (flagged m) { words = update (flagged m).words arg.a (kcas_flagged des) }
  unfolding dcss_create_new a1_is_e1 read_state
  helped args m o =
      help_hit me (own m) marking (flagged m) (ground arith) (ground arith)
        (ground (arith, o.same_sequence, o.same_state)) (ground arith)

  dcss_run :
      (args : List KcasArg) (fuel : ℕ) (m : Memory)
      → Owned des args state_undecided m
      → m.words arg.a ≡ value arg.e
      → dcss me (suc fuel) marking m ≡ (
        some (value arg.e),
        record (flagged m) { words = update (flagged m).words arg.a (kcas_flagged des) },
      )
  unfolding dcss
  dcss_run args fuel m o e = ground (arith, looped fuel m e, helped args m o)

  -- A dcss that no other thread disturbs, where the word has the expected value.
  pub dcss_hit :
      (args : List KcasArg) (fuel : ℕ) (m : Memory)
      → 0 < fuel
      → Owned des args state_undecided m
      → m.words arg.a ≡ value arg.e
      → ((dcss me fuel marking m).0 ≡ some (value arg.e))
        × ((dcss me fuel marking m).1.kcas_pool ≡ m.kcas_pool)
        × ((a : ℕ) → (dcss me fuel marking m).1.words a ≡ update m.words arg.a (kcas_flagged des) a)
  unfolding dcss_create_new
  dcss_hit args zero m b o e = absurd (omega arith)
  dcss_hit args (suc fuel) m b o e = (
    ap (λ r. r.0) (dcss_run args fuel m o e),
    ap (λ r. r.1.kcas_pool) (dcss_run args fuel m o e),
    λ a. ap (λ r. r.1.words a) (dcss_run args fuel m o e) ∙ ground arith,
  )

  -- And where it has another value, or is marked.
  pub dcss_miss :
      (fuel : ℕ) (m : Memory)
      → 0 < fuel
      → ((v : ℕ) × (m.words arg.a ≡ value v) × ((v == arg.e) ≡ false))
        ⊎ (m.words arg.a ≡ kcas_flagged des)
      → ((dcss me fuel marking m).0 ≡ some (m.words arg.a))
        × ((dcss me fuel marking m).1.kcas_pool ≡ m.kcas_pool)
        × ((a : ℕ) → (dcss me fuel marking m).1.words a ≡ m.words a)
  unfolding dcss dcss_create_new dcss_loop dcss_help compare_exchange_weak compare_exchange
  dcss_miss zero m b other = absurd (omega arith)
  dcss_miss (suc fuel) m b (inl other) = (
    ground (arith, other.1, other.2),
    ground (arith, other.1, other.2),
    λ a. ground (arith, other.1, other.2),
  )
  dcss_miss (suc fuel) m b (inr marked) = (ground arith, ground arith, λ a. ground arith)

pub get_elem?-some :
    (args : List KcasArg) (i : ℕ) (x : KcasArg) → get_elem? args i ≡ some x → i < length args
get_elem?-some [] i x e = absurd (ground (arith, e))
get_elem?-some (y ∷ args) zero x e = omega arith
get_elem?-some (y ∷ args) (suc i) x e = omega (arith, get_elem?-some args i x e)

-- The words have distinct addresses.
abbrev pub Distinct : List KcasArg → Type 0
Distinct args =
    (j k : ℕ) (x y : KcasArg)
    → get_elem? args j ≡ some x
    → get_elem? args k ≡ some y
    → x.a ≡ y.a
    → j ≡ k

module _ (args : List KcasArg) where
  pub same_at :
      (i j : ℕ) (x y : KcasArg)
      → get_elem? args i ≡ some x
      → get_elem? args j ≡ some y
      → i ≡ j
      → x ≡ y
  same_at i j x y e f q = some-injective x y (sym e ∙ ap (get_elem? args) q ∙ f)

  pub same_arg :
      Distinct args
      → (i j : ℕ) (x y : KcasArg) → get_elem? args i ≡ some x
      → get_elem? args j ≡ some y
      → x.a ≡ y.a
      → x ≡ y
  same_arg distinct i j x y e f q = same_at i j x y e f (distinct i j x y e f q)

  pub other_index :
      (i j : ℕ) (x y : KcasArg)
      → get_elem? args i ≡ some x
      → get_elem? args j ≡ some y
      → (x.a == y.a) ≡ false
      → i ≢ j
  other_index i j x y e f other q =
      ground (arith, other, ap (λ z. let a : ℕ = z.a in a) (same_at i j x y e f q))

-- `before` is what the words held before the kcas. Each holds it still, or it was the expected value and
-- the word is marked.
abbrev pub Partly : Pointer → List KcasArg → (ℕ → ℕ) → Memory → Type 0
Partly des args before m =
    (j : ℕ) (x : KcasArg)
    → get_elem? args j ≡ some x
    → (m.words x.a ≡ value (before x.a)) ⊎ ((m.words x.a ≡ kcas_flagged des) × (before x.a ≡ x.e))

module _ (me : Thread) ⦃reliable : Reliable me⦄ (help : Pointer → Memory → Memory) (des : Pointer)
    (args : List KcasArg) where
  abbrev pub marked_by : ℕ → KcasArg → Memory → Memory
  marked_by fuel x m = (dcss me fuel (marking me des x) m).1

  pub round_end :
      (fuel i : ℕ) (m : Memory)
      → Owned des args state_undecided m
      → get_elem? args i ≡ none
      → mark_round me help fuel des i m ≡ ends (finished state_succeded) m
  unfolding mark_round
  round_end fuel i m o e = ground (arith, o.same_sequence, o.same_args, e)

  pub round_next :
      (fuel i : ℕ) (x : KcasArg) (m : Memory)
      → Owned des args state_undecided m
      → get_elem? args i ≡ some x
      → ((dcss me fuel (marking me des x) m).0 ≡ some (value x.e))
        ⊎ ((dcss me fuel (marking me des x) m).0 ≡ some (kcas_flagged des))
      → mark_round me help fuel des i m ≡ goes (i + 1) (marked_by fuel x m)
  unfolding mark_round
  round_next fuel i x m o e (inl hit) = ground (arith, o.same_sequence, o.same_args, e, hit)
  round_next fuel i x m o e (inr own) = ground (arith, o.same_sequence, o.same_args, e, own)

  pub round_failed :
      (fuel i v : ℕ) (x : KcasArg) (m : Memory)
      → Owned des args state_undecided m
      → get_elem? args i ≡ some x
      → (dcss me fuel (marking me des x) m).0 ≡ some (value v)
      → (v == x.e) ≡ false
      → mark_round me help fuel des i m ≡ ends (finished state_failed) (marked_by fuel x m)
  unfolding mark_round
  round_failed fuel i v x m o e f other = ground (arith, o.same_sequence, o.same_args, e, f)

  pub mark_goes :
      (fuel i j : ℕ) (m t : Memory)
      → mark_round me help fuel des i m ≡ goes j t
      → mark me help (suc fuel) des i m ≡ mark me help fuel des j t
  unfolding mark
  mark_goes fuel i j m t e = rw (e, mark)

  pub mark-ends :
      (fuel i : ℕ) (m t : Memory) (r : Ended State)
      → mark_round me help fuel des i m ≡ ends r t
      → mark me help (suc fuel) des i m ≡ (r, t)
  unfolding mark
  mark-ends fuel i m t r e = rw (e, mark)
