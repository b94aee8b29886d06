-- ===== src/Pool/Workers/Wakeup.antt =====
-- The sleeping workers of include/sl/exec/thread/pool/monolithic.hpp and the tasks they leave.
use serious_execution_librar.Prelude.{
  ℕ, ◌+◌, ◌*◌, ◌<◌, ◌≡◌, ◌≢◌, ◌⊎◌, inl, inr, refl, ap, subst, Bool, true, false, none, some, [],
  ◌∷◌, ◌==◌, update, arith, bit, Bool-cases, count, count_if-append, weigh, weigh-update, weigh_all,
  weigh_same,
}
use serious_execution_librar.Intrusive.{IntrusiveList}
use serious_execution_librar.Pool.Workers.{
  Worker, looking, waiting, executing, exited, Workers, woken, notify_one, notify_all, close,
  execute, wake, join, init, is_empty, push, try_pop, Step, pushes, pushes_alone, pops, executes,
  wakes, closes, joins, Reach, start, later,
}

-- Neither asleep nor at its end.
abbrev pub awake : Worker → Bool
awake looking = true
awake (executing n) = true
awake w = false

-- How many times a worker executes the task `n` at the moment.
abbrev pub runs : ℕ → Worker → ℕ
runs n (executing k) = bit (k == n)
runs n w = 0

module _ {Q : Type 0} (L : IntrusiveList Q) (tcount : ℕ) (some_worker : 0 < tcount) where
  record Inv (s : Workers Q) : Type 0 where
    ended : (i : ℕ) → s.workers i ≡ exited → (s.is_closed ≡ true) × (L.to_list s.q ≡ [])
    told : (i : ℕ) → s.is_closed ≡ true → s.workers i ≢ waiting
    served : (L.to_list s.q ≡ []) ⊎ ((i : ℕ) × (i < tcount) × (awake (s.workers i) ≡ true))
    over : (i : ℕ) → i < s.joined → s.workers i ≡ exited
    placed :
        (n : ℕ)
        → count n s.scheduled
          ≡ count n (L.to_list s.q)
            + weigh (runs n) tcount s.workers
            + count n s.executed
            + count n s.refused

  -- A worker `i` goes from `w` to `w'`.
  runs-update :
      (n i : ℕ) (w w' : Worker) (s : Workers Q)
      → i < tcount
      → s.workers i ≡ w
      → weigh (runs n) tcount (update s.workers i w') + runs n w
        ≡ weigh (runs n) tcount s.workers + runs n w'
  runs-update n i w w' s b e =
      ground (arith, weigh-update (runs n) tcount i s.workers w', ap (runs n) e)

  exit-Inv :
      (i : ℕ) (s : Workers Q)
      → i < tcount
      → s.workers i ≡ looking
      → L.to_list s.q ≡ []
      → s.is_closed ≡ true
      → Inv s
      → Inv (record s { workers = update s.workers i exited })
  exit-Inv i s b e nil closed v = record {
    ended = λ j f. (closed, nil);
    told = λ j f. ground (arith, v.told j);
    served = inl nil;
    over = λ j l. ground (arith, v.over j l);
    placed = λ n. omega (arith, v.placed n, runs-update n i looking exited s b e);
  }

  sleep-Inv :
      (i : ℕ) (s : Workers Q)
      → i < tcount
      → s.workers i ≡ looking
      → L.to_list s.q ≡ []
      → s.is_closed ≡ false
      → Inv s
      → Inv (record s { workers = update s.workers i waiting })
  sleep-Inv i s b e nil open_ v = record {
    ended = λ j f. ground (arith, v.ended j);
    told = λ j f. absurd (cc);
    served = inl nil;
    over = λ j l. ground (arith, v.over j l);
    placed = λ n. omega (arith, v.placed n, runs-update n i looking waiting s b e);
  }

  take-Inv :
      (i n : ℕ) (rest : Q) (s : Workers Q)
      → i < tcount
      → s.workers i ≡ looking
      → L.to_list s.q ≡ n ∷ L.to_list rest
      → Inv s
      → Inv (record s { workers = update s.workers i (executing n); q = rest })
  take-Inv i n rest s b e cons v = record {
    ended = λ j f. ground (arith, v.ended j, cons);
    told = λ j f. ground (arith, v.told j);
    served = inr (i, b, ground arith);
    over = λ j l. ground (arith, v.over j l);
    placed = λ k. ground (arith, v.placed k, cons, runs-update k i looking (executing n) s b e);
  }

  pop-Inv :
      (i : ℕ) (s : Workers Q) → i < tcount → s.workers i ≡ looking → Inv s → Inv (try_pop L i s)
  unfolding try_pop
  pop-Inv i s b e v = elim (L.pop_front_lem s.q) [
    | inl (none_left, nil) ↦ elim (Bool-cases s.is_closed) [
      | inl closed ↦ subst Inv (ground (arith, none_left, closed)) (exit-Inv i s b e nil closed v)
      | inr open_ ↦ subst Inv (ground (arith, none_left, open_)) (sleep-Inv i s b e nil open_ v)
    ]
    | inr (n, rest, popped, cons) ↦
        subst Inv (ground (arith, popped)) (take-Inv i n rest s b e cons v)
  ]

  is_empty_cases :
      (q : Q)
      → ((is_empty L q ≡ true) × (L.to_list q ≡ [])) ⊎ ((is_empty L q ≡ false) × (L.to_list q ≢ []))
  unfolding is_empty
  is_empty_cases q = elim (L.pop_front_lem q) [
    | inl (none_left, nil) ↦ inl (ground (arith, none_left), nil)
    | inr (n, rest, popped, cons) ↦ inr (ground (arith, popped), λ e. ground (arith, e, cons))
  ]

  -- A push that is refused, that wakes `i`, and that wakes nobody.
  refused-Inv :
      (n : ℕ) (s : Workers Q)
      → Inv s
      → Inv (record s { scheduled = n ∷ s.scheduled; refused = n ∷ s.refused })
  refused-Inv n s v = record {
    ended = v.ended;
    told = v.told;
    served = v.served;
    over = v.over;
    placed = λ k. ground (arith, v.placed k);
  }

  pushed-Inv :
      (n : ℕ) (s : Workers Q)
      → s.is_closed ≡ false
      → ((i : ℕ) × (i < tcount) × (awake (s.workers i) ≡ true))
      → Inv s
      → Inv (record s { scheduled = n ∷ s.scheduled; q = L.push_back s.q n })
  pushed-Inv n s open_ someone v = record {
    ended = λ j f. absurd (ground (arith, open_, v.ended j f));
    told = λ j f. absurd (cc);
    served = inr someone;
    over = v.over;
    placed = λ k. ground (
      arith,
      v.placed k,
      L.to_list-push_back s.q n,
      count_if-append (λ x. x == k) (L.to_list s.q) (n ∷ []),
    );
  }

  wake-Inv :
      (i : ℕ) (s : Workers Q)
      → i < tcount
      → s.workers i ≡ waiting
      → Inv s
      → Inv (record s { workers = update s.workers i looking })
  wake-Inv i s b e v = record {
    ended = λ j f. ground (arith, v.ended j);
    told = λ j f. ground (arith, v.told j);
    served = inr (i, b, ground arith);
    over = λ j l. ground (arith, v.over j l);
    placed = λ n. omega (arith, v.placed n, runs-update n i waiting looking s b e);
  }

  push_woken :
      (n i : ℕ) (s : Workers Q)
      → i < tcount
      → s.workers i ≡ waiting
      → Inv s
      → Inv (push L n (some i) s)
  unfolding push notify_one
  push_woken n i s b e v = elim (Bool-cases s.is_closed) [
    | inl closed ↦ subst Inv (ground (arith, closed)) (refused-Inv n s v)
    | inr open_ ↦ elim (is_empty_cases s.q) [
      | inl (empty, nil) ↦ subst Inv (ground (arith, open_, empty)) (
          pushed-Inv n (record s { workers = update s.workers i looking }) open_
            (i, b, ground arith) (wake-Inv i s b e v))
      | inr (full, cons) ↦
          subst Inv (ground (arith, open_, full)) (pushed-Inv n s open_ (someone cons v.served) v)
    ]
  ]
    where
      someone :
          L.to_list s.q ≢ []
          → (L.to_list s.q ≡ []) ⊎ ((j : ℕ) × (j < tcount) × (awake (s.workers j) ≡ true))
          → (j : ℕ) × (j < tcount) × (awake (s.workers j) ≡ true)
      someone cons (inl nil) = absurd (cons nil)
      someone cons (inr j) = j

  Worker-cases : (w : Worker) → (awake w ≡ true) ⊎ ((w ≡ waiting) ⊎ (w ≡ exited))
  Worker-cases looking = inl refl
  Worker-cases (executing n) = inl refl
  Worker-cases waiting = inr (inl refl)
  Worker-cases exited = inr (inr refl)

  -- No worker sleeps.
  push_alone :
      (n : ℕ) (s : Workers Q)
      → ((i : ℕ) → i < tcount → s.workers i ≢ waiting)
      → Inv s
      → Inv (push L n none s)
  unfolding push notify_one
  push_alone n s nobody v = elim (Bool-cases s.is_closed) [
    | inl closed ↦ subst Inv (ground (arith, closed)) (refused-Inv n s v)
    | inr open_ ↦
        subst Inv (ground (arith, open_))
          (pushed-Inv n s open_ (first open_ (Worker-cases (s.workers 0))) v)
  ]
    where
      first :
          s.is_closed ≡ false
          → (awake (s.workers 0) ≡ true) ⊎ ((s.workers 0 ≡ waiting) ⊎ (s.workers 0 ≡ exited))
          → (j : ℕ) × (j < tcount) × (awake (s.workers j) ≡ true)
      first open_ (inl works) = (0, some_worker, works)
      first open_ (inr (inl sleeps)) = absurd (nobody 0 some_worker sleeps)
      first open_ (inr (inr over)) = absurd (ground (arith, open_, v.ended 0 over))

  execute-Inv :
      (i n : ℕ) (s : Workers Q)
      → i < tcount
      → s.workers i ≡ executing n
      → Inv s
      → Inv (execute i n s)
  unfolding execute
  execute-Inv i n s b e v = record {
    ended = λ j f. ground (arith, v.ended j);
    told = λ j f. ground (arith, v.told j);
    served = inr (i, b, ground arith);
    over = λ j l. ground (arith, v.over j l, e);
    placed = λ k. ground (arith, v.placed k, runs-update k i (executing n) looking s b e);
  }

  runs-woken : (n : ℕ) (w : Worker) → runs n (woken w) ≡ runs n w
  runs-woken n w = ground arith

  closed-Inv :
      (s : Workers Q)
      → s.is_closed ≡ false
      → Inv s
      → Inv (notify_all (record s { is_closed = true }))
  unfolding notify_all
  closed-Inv s open_ v = record {
    ended = λ j f. absurd (not_over j f);
    told = λ j f. ground arith;
    served = woken_served v.served;
    over = λ j l. ground (arith, v.over j l);
    placed = λ n. omega (
      arith,
      v.placed n,
      weigh_same (runs n) tcount (λ i. woken (s.workers i)) s.workers
          (λ i. runs-woken n (s.workers i)),
    );
  }
    where
      not_over : (j : ℕ) → woken (s.workers j) ≡ exited → ⊥
      not_over j f = ground (arith, open_, v.ended j)

      woken_served :
          (L.to_list s.q ≡ []) ⊎ ((j : ℕ) × (j < tcount) × (awake (s.workers j) ≡ true))
          → (L.to_list s.q ≡ []) ⊎ ((j : ℕ) × (j < tcount) × (awake (woken (s.workers j)) ≡ true))
      woken_served (inl nil) = inl nil
      woken_served (inr (j, l, w)) = inr (j, l, ground arith)

  close-Inv : (s : Workers Q) → Inv s → Inv (close s)
  unfolding close
  close-Inv s v = elim (Bool-cases s.is_closed) [
    | inl closed ↦ subst Inv (ground (arith, closed)) v
    | inr open_ ↦ subst Inv (ground (arith, open_)) (closed-Inv s open_ v)
  ]

  Step-Inv : {s t : Workers Q} → Step L tcount s t → Inv s → Inv t
  unfolding wake join
  Step-Inv {s} (pushes n i b e) v = push_woken n i s b e v
  Step-Inv {s} (pushes_alone n nobody) v = push_alone n s nobody v
  Step-Inv {s} (pops i b e) v = pop-Inv i s b e v
  Step-Inv {s} (executes i n b e) v = execute-Inv i n s b e v
  Step-Inv {s} (wakes i b e) v = wake-Inv i s b e v
  Step-Inv {s} closes v = close-Inv s v
  Step-Inv {s} (joins c l e) v = record {
    ended = v.ended;
    told = v.told;
    served = v.served;
    over = λ j m. elim (Bool-cases (j == s.joined)) [
      | inl last ↦ ground (arith, e, last)
      | inr before ↦ v.over j (ground arith)
    ];
    placed = v.placed;
  }

  Reach-Inv : {s : Workers Q} → Reach L tcount s → Inv s
  unfolding init
  Reach-Inv start = record {
    ended = λ j f. absurd (cc);
    told = λ j f. absurd (cc);
    served = inl L.to_list-empty;
    over = λ j l. absurd (omega arith);
    placed = λ n.
        ground (arith, L.to_list-empty, weigh_all (runs n) tcount (λ i. looking) 0 (λ i b. refl));
  }
  Reach-Inv (later r st) = Step-Inv st (Reach-Inv r)

  -- In every reachable state in which a task is queued, some worker is neither asleep nor at its end, so
  -- that no wakeup is lost.
  pub no_lost_wakeup :
      {s : Workers Q}
      → Reach L tcount s
      → L.to_list s.q ≢ []
      → (i : ℕ) × (i < tcount) × (awake (s.workers i) ≡ true)
  no_lost_wakeup r queued = elim ((Reach-Inv r).served) [
    | inl nil ↦ absurd (queued nil)
    | inr someone ↦ someone
  ]

  -- In every reachable state in which `stop` has joined all workers, each task was executed as often as
  -- it was scheduled and not refused.
  pub stop_lem :
      {s : Workers Q}
      → Reach L tcount s
      → s.joined ≡ tcount
      → (n : ℕ) → count n s.executed + count n s.refused ≡ count n s.scheduled
  stop_lem {s} r all n =
      let v : Inv s = Reach-Inv r in
      let first : s.workers 0 ≡ exited = v.over 0 (omega arith) in
      let idle : weigh (runs n) tcount s.workers ≡ tcount * 0 =
        weigh_all (runs n) tcount s.workers 0 (λ i b. ap (runs n) (v.over i (omega arith))) in
      ground (arith, v.placed n, v.ended 0 first, idle)
