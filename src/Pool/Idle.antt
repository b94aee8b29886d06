-- ===== src/Pool/Idle.antt =====
-- The counter that `wait_idle` of include/sl/exec/thread/pool/monolithic.hpp looks at.
use serious_execution_librar.Prelude.{
  ℕ, ◌+◌, ◌<◌, ◌≡◌, ◌≢◌, inl, inr, refl, some, List, [], ◌∷◌, ◌++◌, arith, ◌==◌, length,
  length-append, count, count_if-append, Bool-cases, subst, sym, ap, ◌∙◌,
}
use mathlib.Core.Option.{some-injective}
use serious_execution_librar.Intrusive.{IntrusiveList}
use serious_execution_librar.Pool.{
  Pool, add, close, execute, finish, init, push, try_pop, Step, adds, pushes, pops, executes,
  finishes, closes, Reach, start, later,
}

module _ {Q : Type 0} (L : IntrusiveList Q) where
  record Inv (s : Pool Q) : Type 0 where
    counted :
        s.work
        ≡ s.adding + length (L.to_list s.tq) + length s.running + s.finishing + length s.refused
    bounded : s.work < 4294967296
    placed :
        (n : ℕ)
        → count n s.scheduled
          ≡ count n (L.to_list s.tq) + count n s.running + count n s.executed + count n s.refused

  push-Inv : (n : ℕ) (s : Pool Q) → 0 < s.adding → Inv s → Inv (push L n s)
  unfolding push
  push-Inv n s b v = elim (Bool-cases s.is_closed) [
    | inl closed ↦ record {
      counted = ground (arith, v.counted);
      bounded = ground (arith, v.bounded);
      placed = λ k. ground (arith, v.placed k);
    }
    | inr open_ ↦ record {
      counted =
          ground
            (arith, v.counted, L.to_list-push_back s.tq n, length-append (L.to_list s.tq) (n ∷ []));
      bounded = ground (arith, v.bounded);
      placed = λ k. ground (
        arith,
        v.placed k,
        L.to_list-push_back s.tq n,
        count_if-append (λ x. x == k) (L.to_list s.tq) (n ∷ []),
      );
    }
  ]

  try_pop-Inv : (s t : Pool Q) → try_pop L s ≡ some t → Inv s → Inv t
  unfolding try_pop
  try_pop-Inv s t e v = elim (L.pop_front_lem s.tq) [
    | inl (none_left, nil) ↦ absurd (cc)
    | inr (n, rest, popped, cons) ↦
        subst Inv (some-injective _ _ (sym (pop_some n rest popped) ∙ e)) (record {
          counted = ground (arith, v.counted, cons);
          bounded = ground (arith, v.bounded);
          placed = λ k. ground (arith, v.placed k, cons);
        })
  ]
    where
      pop_some :
          (n : ℕ) (rest : Q)
          → L.pop_front s.tq ≡ some (n, rest)
          → try_pop L s ≡ some (record s { tq = rest; running = n ∷ s.running })
      pop_some n rest p = rw (p, try_pop) refl

  execute-Inv :
      (before : List ℕ) (n : ℕ) (after : List ℕ) (s : Pool Q)
      → s.running ≡ before ++ n ∷ after
      → Inv s
      → Inv (execute before n after s)
  unfolding execute
  execute-Inv before n after s e v = record {
    counted = ground (
      arith,
      v.counted,
      ap length e,
      length-append before (n ∷ after),
      length-append before after,
    );
    bounded = v.bounded;
    placed = λ k. ground (
      arith,
      v.placed k,
      e,
      count_if-append (λ x. x == k) before (n ∷ after),
      count_if-append (λ x. x == k) before after,
    );
  }

  Step-Inv : {s t : Pool Q} → Step L s t → Inv s → Inv t
  unfolding add close finish
  Step-Inv {s} (adds b) v = record {
    counted = ground (arith, v.counted);
    bounded = ground arith;
    placed = λ k. v.placed k;
  }
  Step-Inv {s} (pushes n b) v = push-Inv n s b v
  Step-Inv {s} (pops {t} e) v = try_pop-Inv s t e v
  Step-Inv {s} (executes before n after e) v = execute-Inv before n after s e v
  Step-Inv {s} (finishes b) v = record {
    counted = ground (arith, v.counted, v.bounded);
    bounded = ground (arith);
    placed = λ k. v.placed k;
  }
  Step-Inv {s} closes v = record { counted = v.counted; bounded = v.bounded; placed = v.placed }

  Reach-Inv : {s : Pool Q} → Reach L s → Inv s
  unfolding init
  Reach-Inv start = record {
    counted = ground (arith, L.to_list-empty);
    bounded = ground arith;
    placed = λ k. ground (arith, L.to_list-empty);
  }
  Reach-Inv (later r st) = Step-Inv st (Reach-Inv r)

  no_elements : (xs : List ℕ) → length xs ≡ 0 → (n : ℕ) → count n xs ≡ 0
  no_elements [] e n = refl
  no_elements (x ∷ xs) e n = absurd (omega arith)

  -- In every reachable state in which `wait_idle` would return, that is, with the counter at 0, every
  -- task has been executed as often as it was scheduled.
  pub wait_idle_lem :
      {s : Pool Q} → Reach L s → s.work ≡ 0 → (n : ℕ) → count n s.executed ≡ count n s.scheduled
  wait_idle_lem {s} r e n =
      let v : Inv s = Reach-Inv r in
      ground (
        arith,
        v.counted,
        v.placed n,
        no_elements (L.to_list s.tq) (omega (arith, v.counted)) n,
        no_elements s.running (omega (arith, v.counted)) n,
        no_elements s.refused (omega (arith, v.counted)) n,
      )

  -- In every reachable state in which the queue has refused a task, as it does once it is closed, the
  -- counter is not 0, so that `wait_idle` does not return; and each task was scheduled as often as it is
  -- refused, executed, running or queued, taken together.
  pub refused_lem :
      {s : Pool Q}
      → Reach L s
      → s.refused ≢ []
      → (s.work ≢ 0)
        × ((n : ℕ)
            → count n s.refused + count n s.executed + count n s.running + count n (L.to_list s.tq)
              ≡ count n s.scheduled)
  refused_lem {s} r some_refused =
      let v : Inv s = Reach-Inv r in
      (
        λ e. some_refused (empty_refused s.refused (omega (arith, v.counted, e))),
        λ n. omega (arith, v.placed n),
      )
    where
      empty_refused : (xs : List ℕ) → length xs ≡ 0 → xs ≡ []
      empty_refused [] e = refl
      empty_refused (x ∷ xs) e = absurd (omega arith)
