-- ===== src/Serial/Order.antt =====
-- The order of the tasks of include/sl/exec/algo/sync/serial.hpp, and when they are handled.
use serious_execution_librar.Prelude.{
  ℕ, ◌+◌, ◌≤◌, ◌≡◌, ◌≢◌, Bool, true, false, Option, none, some, List, [], ◌∷◌, ◌++◌, arith, ◌==◌,
  length, refl, reverse, ap, sym, subst, ◌∙◌, map, append-nil, append_assoc, inl, inr, ◌⊎◌,
  Bool-cases, List-cases, ltb,
}
use mathlib.Core.List.{map-append, reverse-cons}
use serious_execution_librar.Serial.{
  Run, Serial, handle, task_of, init, push, announce, run_one, begin, extract, finish, Step, pushes,
  announces, begins, runs, finishes, extracts, stops, direct_runs, direct_finishes, direct_extracts,
  Reach, start, later,
}
use serious_execution_librar.Serial.Invariant.{
  running, active, Inv, Again, no_direct, stop-stops, Step-stopped, Reach-Inv,
}

abbrev pub left : Option Run → List ℕ
left none = []
left (some r) = r.todo

-- The tasks handled, then those of the current batch, then those of the stack from the bottom.
abbrev InOrder : Serial → Type 0
InOrder s = map task_of s.handled ++ (left s.run ++ reverse s.batch) ≡ s.pushed

regroup {ℓ} : {A : Type ℓ} (a b c d : List A) → a ++ (b ++ (c ++ d)) ≡ (a ++ (b ++ c)) ++ d
regroup a b c d = simp append_assoc

task_of-handle : (m : Bool) (n : ℕ) → task_of (handle m n) ≡ n
task_of-handle true n = refl
task_of-handle false n = refl

-- An activation that has handled its whole batch may as well be absent.
left_nil : {r : Run} (s : Serial) → s.run ≡ some r → r.todo ≡ [] → left s.run ≡ []
left_nil s e nil = ap left e ∙ nil

push-InOrder : (n : ℕ) (s : Serial) → InOrder s → InOrder (push n s)
unfolding push
push-InOrder n s v = rw (reverse-cons n s.batch) (
    regroup (map task_of s.handled) (left s.run) (reverse s.batch) (n ∷ [])
    ∙ ap (λ (l : List ℕ). l ++ n ∷ []) v)

all_handled :
    (s : Serial) → left s.run ≡ [] → s.batch ≡ [] → InOrder s → map task_of s.handled ≡ s.pushed
all_handled s no_batch no_stack v =
    sym (append-nil (map task_of s.handled))
    ∙ ap (λ (l : List ℕ). map task_of s.handled ++ reverse l) (sym no_stack)
    ∙ ap (λ (l : List ℕ). map task_of s.handled ++ (l ++ reverse s.batch)) (sym no_batch)
    ∙ v

announce-InOrder : (s : Serial) → InOrder s → InOrder (announce s)
unfolding announce
announce-InOrder s v = v

run_one-InOrder : (r : Run) (s : Serial) → s.run ≡ some r → InOrder s → InOrder (run_one r s)
unfolding run_one
run_one-InOrder r s e v = elim (List-cases r.todo) [
  | inl nil ↦ rw (nil, run_one) v
  | inr (n, rest, cons) ↦
      rw (cons, run_one)
        (rw
          (map-append task_of s.handled (handle r.cancelling n ∷ []), task_of-handle r.cancelling n)
          (append_assoc (map task_of s.handled) (n ∷ []) (rest ++ reverse s.batch)
            ∙ ap (λ (l : List ℕ). map task_of s.handled ++ (l ++ reverse s.batch))
                (sym (ap left e ∙ cons))
            ∙ v))
]

module _ (node_reverse : List ℕ → List ℕ)
    (reverses : (xs : List ℕ) → node_reverse xs ≡ reverse xs) where
  -- The batch takes the whole stack in the order in which it was pushed.
  extracted :
      (s : Serial)
      → left s.run ≡ []
      → InOrder s
      → map task_of s.handled ++ (node_reverse s.batch ++ []) ≡ s.pushed
  extracted s none_left v =
      rw (append-nil (node_reverse s.batch), reverses s.batch)
        (ap (λ (l : List ℕ). map task_of s.handled ++ (l ++ reverse s.batch)) (sym none_left) ∙ v)

  begin-InOrder :
      (m : Bool) (s : Serial) → left s.run ≡ [] → InOrder s → InOrder (begin node_reverse m s)
  unfolding begin extract
  begin-InOrder m s e v = extracted s e v

  extract-InOrder :
      (s : Serial) → left s.run ≡ [] → InOrder s → InOrder (extract node_reverse true s)
  unfolding extract
  extract-InOrder s e v = extracted s e v

  finish-InOrder : (r : Run) (s : Serial) → left s.run ≡ [] → InOrder s → InOrder (finish r s)
  unfolding finish
  finish-InOrder r s e v = elim (Bool-cases (ltb r.batch_size s.work)) [
    | inl more ↦ elim (Bool-cases r.cancelling) [
      | inl cancel ↦ rw (more, cancel, finish) stays
      | inr go_on ↦ rw (more, go_on, finish) stays
    ]
    | inr over ↦ rw (over, finish) stays
  ]
    where
      stays : map task_of s.handled ++ ([] ++ reverse s.batch) ≡ s.pushed
      stays = ap (λ (l : List ℕ). map task_of s.handled ++ (l ++ reverse s.batch)) (sym e) ∙ v

  Step-InOrder :
      {s t : Serial} → Step node_reverse s t → t.stopped ≡ false → Inv s → InOrder s → InOrder t
  Step-InOrder {s} (pushes n b c) o i v = push-InOrder n s v
  Step-InOrder {s} (announces b) o i v = announce-InOrder s v
  Step-InOrder {s} (begins m b) o i v = begin-InOrder m s (ground (arith, i.single)) v
  Step-InOrder {s} (runs r e ne) o i v = run_one-InOrder r s e v
  Step-InOrder {s} (finishes r e nil fresh) o i v = finish-InOrder r s (left_nil s e nil) v
  Step-InOrder {s} (extracts r e again) o i v =
      extract-InOrder s (left_nil s e (subst Again e i.before_extract again).0) v
  Step-InOrder {s} (stops e) o i v = absurd (stop-stops node_reverse reverses s o)
  Step-InOrder {s} (direct_runs r e ne) o i v = absurd (no_direct node_reverse reverses s e i)
  Step-InOrder {s} (direct_finishes r e nil fresh) o i v =
      absurd (no_direct node_reverse reverses s e i)
  Step-InOrder {s} (direct_extracts r e again) o i v = absurd (stop-stops node_reverse reverses s o)

  Reach-InOrder : {s : Serial} → Reach node_reverse s → s.stopped ≡ false → InOrder s
  unfolding init
  Reach-InOrder start o = refl
  Reach-InOrder (later r st) o =
      Step-InOrder st o
        (Reach-Inv node_reverse reverses r (Step-stopped node_reverse reverses st o))
        (Reach-InOrder r (Step-stopped node_reverse reverses st o))

  -- In every reachable state in which no client has called `stop`, which the executor's own task may
  -- run, the tasks handled so far, then those left in the current batch, then
  -- those on the stack from the bottom, are the tasks pushed so far, in order: none is lost, doubled
  -- or overtaken.
  pub handled_in_order :
      {s : Serial}
      → Reach node_reverse s
      → s.stopped ≡ false
      → map task_of s.handled ++ (left s.run ++ reverse s.batch) ≡ s.pushed
  handled_in_order r o = Reach-InOrder r o

  -- In every reachable state in which no client has called `stop` the executor's task is scheduled or running at most once, so two tasks
  -- never run together; and if it is scheduled, the stack is not empty, as `execute` and `stop` assert.
  pub one_activation :
      {s : Serial}
      → Reach node_reverse s
      → s.stopped ≡ false
      → (s.queued + running s.run ≤ 1) × ((s.queued ≡ 0) ⊎ (s.batch ≢ []))
  one_activation {s} r o = (
    i.single,
    elim (Bool-cases (s.queued == 0)) [
      | inl zero_queued ↦ inl (ground arith)
      | inr waiting ↦ inr (λ nil. ground (arith, i.busy, i.single, i.alone, ap length nil))
    ],
  )
    where
      i : Inv s
      i = Reach-Inv node_reverse reverses r o

  -- In every reachable state in which no thread is inside `schedule` and no client has called `stop`, every task pushed so far has
  -- been handled, or the executor's task is scheduled or running: work never waits unattended.
  pub no_task_forgotten :
      {s : Serial}
      → Reach node_reverse s
      → s.stopped ≡ false
      → s.pushing ≡ 0
      → (map task_of s.handled ≡ s.pushed) ⊎ (s.queued + running s.run ≡ 1)
  no_task_forgotten {s} r o e = elim (Bool-cases (active s == 0)) [
    | inl asleep ↦ inl (
        all_handled s (ground (arith, asleep)) (ground (arith, i.quiet, asleep))
          (Reach-InOrder r o))
    | inr awake ↦ inr (ground (arith, i.single))
  ]
    where
      i : Inv s
      i = Reach-Inv node_reverse reverses r o
