-- ===== src/Serial/Invariant.antt =====
-- The counter `work_` of include/sl/exec/algo/sync/serial.hpp, its wrap-around, and
-- whether the executor is active.
use serious_execution_librar.Prelude.{
  ℕ, ◌+◌, ◌-◌, ◌%◌, ◌<◌, ◌≤◌, ◌≡◌, ◌≢◌, Bool, true, false, Option, none, some, List, [], ◌∷◌, arith,
  length, length-append, refl, reverse, ap, subst,
}
use mathlib.Core.List.{reverse-cons}
use serious_execution_librar.Serial.{
  Run, Serial, outstanding, u32_mod, init, push, announce, run_one, begin, finish, extract, stop,
  direct_one, direct_finish, Step, pushes, announces, begins, runs, finishes, extracts, stops,
  direct_runs, direct_finishes, direct_extracts, Reach, start, later,
}

abbrev pub running : Option Run → ℕ
running none = 0
running (some r) = 1

-- A `stop` that extracts again has nothing left of a batch.
abbrev pub Again : Option Run → Type 0
Again none = Unit {0}
Again (some r) = r.again ≡ true → (r.todo ≡ []) × (r.batch_size ≡ 0)

abbrev pub active : Serial → ℕ
active s = s.queued + running s.run

pub record Inv (s : Serial) : Type 0 where
  pub single : active s ≤ 1
  pub counted : s.work ≡ (u32_mod + outstanding s - s.pushing) % u32_mod
  pub small : outstanding s < u32_mod
  pub few : s.pushing < u32_mod
  pub busy : 0 < active s → s.pushing < outstanding s
  pub quiet : active s ≡ 0 → outstanding s ≤ s.pushing
  pub alone : s.direct ≡ none
  pub before_extract : Again s.run

module _ (node_reverse : List ℕ → List ℕ)
    (reverses : (xs : List ℕ) → node_reverse xs ≡ reverse xs) where
  length-reverse : (xs : List ℕ) → length (reverse xs) ≡ length xs
  length-reverse [] = refl
  length-reverse (x ∷ xs) =
      omega (
        arith,
        ap length (reverse-cons x xs),
        length-append (reverse xs) (x ∷ []),
        length-reverse xs,
      )

  length-node_reverse : (xs : List ℕ) → length (node_reverse xs) ≡ length xs
  length-node_reverse xs = omega (arith, ap length (reverses xs), length-reverse xs)

  pub stop-stops : (s : Serial) → (stop node_reverse s).stopped ≢ false
  unfolding stop
  stop-stops s o = ground (arith, o)

  pub no_direct : {r : Run} (s : Serial) → s.direct ≡ some r → Inv s → ⊥
  no_direct s e v = ground (arith, e, v.alone)

  init-Inv : Inv init
  unfolding init
  init-Inv = ground arith

  push-Inv :
      (n : ℕ) (s : Serial)
      → outstanding s + 1 < u32_mod
      → s.pushing + 1 < u32_mod
      → Inv s
      → Inv (push n s)
  unfolding push
  push-Inv n s b c v = ground arith

  announce-Inv : (s : Serial) → 0 < s.pushing → Inv s → Inv (announce s)
  unfolding announce
  announce-Inv s b v = ground arith

  begin-Inv : (m : Bool) (s : Serial) → 0 < s.queued → Inv s → Inv (begin node_reverse m s)
  unfolding begin
  begin-Inv m s b v = ground (arith, length-node_reverse s.batch)

  run_one-Inv : (r : Run) (s : Serial) → s.run ≡ some r → Inv s → Inv (run_one r s)
  unfolding run_one
  run_one-Inv r s e v = ground arith

  finish-Inv :
      (r : Run) (s : Serial)
      → s.run ≡ some r
      → r.todo ≡ []
      → r.again ≡ false
      → Inv s
      → Inv (finish r s)
  unfolding finish
  finish-Inv r s e nil fresh v = ground arith

  extract-Inv :
      (r : Run) (s : Serial)
      → s.run ≡ some r
      → r.again ≡ true
      → Inv s
      → Inv (extract node_reverse true s)
  unfolding extract
  extract-Inv r s e again v =
      ground (arith, length-node_reverse s.batch, subst Again e v.before_extract again)

  pub Step-Inv : {s t : Serial} → Step node_reverse s t → t.stopped ≡ false → Inv s → Inv t
  Step-Inv {s} (pushes n b c) o v = push-Inv n s b c v
  Step-Inv {s} (announces b) o v = announce-Inv s b v
  Step-Inv {s} (begins m b) o v = begin-Inv m s b v
  Step-Inv {s} (runs r e ne) o v = run_one-Inv r s e v
  Step-Inv {s} (finishes r e nil fresh) o v = finish-Inv r s e nil fresh v
  Step-Inv {s} (extracts r e again) o v = extract-Inv r s e again v
  Step-Inv {s} (stops e) o v = absurd (stop-stops s o)
  Step-Inv {s} (direct_runs r e ne) o v = absurd (no_direct s e v)
  Step-Inv {s} (direct_finishes r e nil fresh) o v = absurd (no_direct s e v)
  Step-Inv {s} (direct_extracts r e again) o v = absurd (stop-stops s o)

  -- A step does not take a call of `stop` back.
  pub Step-stopped : {s t : Serial} → Step node_reverse s t → t.stopped ≡ false → s.stopped ≡ false
  unfolding push announce begin run_one finish extract direct_one direct_finish
  Step-stopped {s} (pushes n b c) o = o
  Step-stopped {s} (announces b) o = o
  Step-stopped {s} (begins m b) o = o
  Step-stopped {s} (runs r e ne) o = ground (arith, o)
  Step-stopped {s} (finishes r e nil fresh) o = ground (arith, o)
  Step-stopped {s} (extracts r e again) o = o
  Step-stopped {s} (stops e) o = absurd (stop-stops s o)
  Step-stopped {s} (direct_runs r e ne) o = ground (arith, o)
  Step-stopped {s} (direct_finishes r e nil fresh) o = o
  Step-stopped {s} (direct_extracts r e again) o = absurd (stop-stops s o)

  pub Reach-Inv : {s : Serial} → Reach node_reverse s → s.stopped ≡ false → Inv s
  Reach-Inv start o = init-Inv
  Reach-Inv (later r st) o = Step-Inv st o (Reach-Inv r (Step-stopped st o))
