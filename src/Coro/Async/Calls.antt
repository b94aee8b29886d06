-- ===== src/Coro/Async/Calls.antt =====
-- Awaiting in include/sl/exec/coro/coroutine.hpp and include/sl/exec/coro/async.hpp, next to calls.
use serious_execution_librar.Prelude.{
  ℕ, suc, ◌<◌, ◌≤◌, ◌≡◌, inl, inr, refl, ap, ◌∙◌, ◌==◌, some, List, [], ◌∷◌, ◌++◌, update,
  update_self, append_assoc, append-nil, arith, dec_lt, Bool-cases, false,
}
use serious_execution_librar.Slot.{Result, ok, err}
use serious_execution_librar.Coro.Async.{
  Kind, Body, does, awaits, ends, frame, Point, at_body, awaiting, done, Frame, Machine,
  get_return_object, call, destroy, await_suspend, await_resume, final_suspend, finish, resume_with,
  step_at, step, run,
}

-- What a body does when each `co_await` is read as a call: its effects in order, and its result.
abbrev pub outcome : {O R X : Type 0} → Body O R X → Result R X
outcome (does o rest) = outcome rest
outcome (awaits kind child k) = outcome (k (outcome child))
outcome (ends r) = r

abbrev pub effects_of : {O R X : Type 0} → Body O R X → List O
effects_of (does o rest) = o ∷ effects_of rest
effects_of (awaits kind child k) = effects_of child ++ effects_of (k (outcome child))
effects_of (ends r) = []

module _ {O R X : Type 0} where
  pub data Reaches (t : Machine O R X) : Machine O R X → Type 0 where
    arrived : Reaches t t
    stepped : {s u : Machine O R X} → step s ≡ some u → Reaches t u → Reaches t s

  pub Reaches-trans : {t s u : Machine O R X} → Reaches t s → Reaches u t → Reaches u s
  Reaches-trans arrived q = q
  Reaches-trans (stepped e r) q = stepped e (Reaches-trans r q)

  -- With that many steps of fuel.
  pub run-Reaches : {t s : Machine O R X} → Reaches t s → (n : ℕ) × (run n s ≡ some t)
  unfolding run
  run-Reaches arrived = (0, refl)
  run-Reaches {t = t} {s = s} (stepped {u = u} e r) =
      let rest : (n : ℕ) × (run n u ≡ some t) = run-Reaches r in
      (suc rest.0, ground (arith, e, rest.1))

  pub step-frame :
      (s : Machine O R X) (i : ℕ) (p : Point O R X)
      → s.current ≡ frame i
      → (s.frames i).point ≡ p
      → step s ≡ step_at i p s
  unfolding step
  step-frame s i p e f = rw (e, f)

  -- From `s` to `t` the frame `i` has run `body` up to its end.
  pub record Ran (i : ℕ) (body : Body O R X) (s t : Machine O R X) : Type 0 where
    pub current : t.current ≡ frame i
    pub here : t.frames i ≡ record (s.frames i) { point = at_body (ends (outcome body)) }
    pub others : (j : ℕ) → j < s.fresh → (j == i) ≡ false → t.frames j ≡ s.frames j
    pub above : s.fresh ≤ t.fresh
    pub once : (j : ℕ) → s.fresh ≤ j → j < t.fresh → (t.frames j).destroys ≡ 1
    pub effects : t.effects ≡ s.effects ++ effects_of body

  -- The call that frame `i` awaits, its return and the destruction of its frame.
  abbrev enter : ℕ → Kind → Body O R X → (Result R X → Body O R X) → Machine O R X → Machine O R X
  enter i kind child k s = await_suspend s.fresh i (
      call kind child (record s {
        frames = update s.frames i (record (s.frames i) { point = awaiting s.fresh k });
      }))

  abbrev returned_to : ℕ → ℕ → Result R X → Machine O R X → Machine O R X
  returned_to i child r s = record s {
    frames =
        update s.frames child (record (s.frames child) { point = done; maybe_return = some r });
    current = frame i;
  }

  abbrev resumed : ℕ → ℕ → Body O R X → Machine O R X → Machine O R X
  resumed i child body s =
      let t : Machine O R X = destroy child s in
      record t { frames = update t.frames i (record (t.frames i) { point = at_body body }) }

  abbrev did : ℕ → O → Body O R X → Machine O R X → Machine O R X
  did i o rest s = record s {
    frames = update s.frames i (record (s.frames i) { point = at_body rest });
    effects = s.effects ++ o ∷ [];
  }

  frame-eta : (f : Frame O R X) (p : Point O R X) → f.point ≡ p → f ≡ record f { point = p }
  frame-eta f p e = ap (λ q. let g : Frame O R X = record f { point = q } in g) e

  does-Ran :
      (o : O) (rest : Body O R X) (i : ℕ) (s t : Machine O R X)
      → i < s.fresh
      → Ran i rest (did i o rest s) t
      → Ran i (does o rest) s t
  does-Ran o rest i s t b v = record {
    current = v.current;
    here = ground (arith, v.here);
    others = λ j l e. ground (arith, v.others j l e);
    above = v.above;
    once = v.once;
    effects = v.effects ∙ append_assoc s.effects (o ∷ []) (effects_of rest);
  }

  step-did :
      (i : ℕ) (o : O) (rest : Body O R X) (s : Machine O R X)
      → s.current ≡ frame i
      → (s.frames i).point ≡ at_body (does o rest)
      → step s ≡ some (did i o rest s)
  unfolding step_at
  step-did i o rest s c p = step-frame s i _ c p

  module _ (kind : Kind) (child : Body O R X) (k : Result R X → Body O R X) (i : ℕ)
      (s t u : Machine O R X) (b : i < s.fresh) where
    abbrev last : Machine O R X
    last = resumed i s.fresh (k (outcome child)) (returned_to i s.fresh (outcome child) t)

    -- The frame of the call is destroyed on its return, and those below it by then.
    once-below :
        Ran s.fresh child (enter i kind child k s) t
        → Ran i (k (outcome child)) last u
        → (j : ℕ) → s.fresh ≤ j
        → j < u.fresh
        → (u.frames j).destroys ≡ 1
    unfolding call await_suspend destroy get_return_object
    once-below v w j l l' = elim (dec_lt j t.fresh) [
      | no new ↦ w.once j (omega arith) l'
      | yes old ↦ elim (Bool-cases (j == s.fresh)) [
        | inl own ↦ ground (arith, w.others j old (ground arith), v.here)
        | inr other ↦ ground (arith, w.others j old (ground arith), v.once j (ground arith) old)
      ]
    ]

    awaits-Ran :
        Ran s.fresh child (enter i kind child k s) t
        → Ran i (k (outcome child)) last u
        → Ran i (awaits kind child k) s u
    unfolding call await_suspend destroy get_return_object
    awaits-Ran v w = record {
      current = w.current;
      here = ground (arith, w.here, v.others i (omega arith) (ground arith));
      others = λ j l e.
          ground
            (arith, w.others j (omega (arith, v.above)) e, v.others j (omega arith) (ground arith));
      above = omega (arith, v.above, w.above);
      once = once-below v w;
      effects = rw (
        w.effects,
        v.effects,
        append_assoc s.effects (effects_of child) (effects_of (k (outcome child))),
      );
    }

    step-enter :
        s.current ≡ frame i
        → (s.frames i).point ≡ at_body (awaits kind child k)
        → step s ≡ some (enter i kind child k s)
    unfolding step_at
    step-enter c p = step-frame s i _ c p

    step-finish :
        Ran s.fresh child (enter i kind child k s) t
        → step t ≡ some (returned_to i s.fresh (outcome child) t)
    unfolding step_at finish final_suspend call await_suspend
    step-finish v = ground (
      arith,
      v.current,
      v.here,
      step-frame t s.fresh _ v.current (ap (λ f. let q : Point O R X = f.point in q) v.here),
    )

    resume_with_lem :
        (r : Result R X) (t : Machine O R X)
        → (t.frames s.fresh).point ≡ done
        → (t.frames s.fresh).maybe_return ≡ some r
        → resume_with i s.fresh k (await_resume s.fresh t) t ≡ some (resumed i s.fresh (k r) t)
    unfolding await_resume resume_with
    resume_with_lem (ok v) t d m = ground (arith, d, m)
    resume_with_lem (err x) t d m = ground (arith, d, m)

    step-resumed :
        Ran s.fresh child (enter i kind child k s) t
        → step (returned_to i s.fresh (outcome child) t) ≡ some last
    unfolding step_at call await_suspend
    step-resumed v =
        step-frame (returned_to i s.fresh (outcome child) t) i (awaiting s.fresh k) refl
          (ground (arith, v.others i (omega arith) (ground arith)))
        ∙ resume_with_lem (outcome child) (returned_to i s.fresh (outcome child) t) (ground arith)
            (ground arith)

    around :
        s.current ≡ frame i
        → (s.frames i).point ≡ at_body (awaits kind child k)
        → Reaches t (enter i kind child k s)
        → Ran s.fresh child (enter i kind child k s) t
        → Reaches u last
        → Reaches u s
    around c p to_return v to_end =
        stepped (step-enter c p)
          (Reaches-trans to_return (stepped (step-finish v) (stepped (step-resumed v) to_end)))

  -- From any state in which the frame `i` runs, before `body`, the machine gets to the end of the body.
  abbrev pub Runs : Body O R X → Type 0
  Runs body =
      (i : ℕ) (s : Machine O R X)
      → s.current ≡ frame i
      → (s.frames i).point ≡ at_body body
      → i < s.fresh
      → (t : Machine O R X) × Reaches t s × Ran i body s t

  awaits-Runs :
      (kind : Kind) (child : Body O R X) (k : Result R X → Body O R X)
      → Runs child
      → Runs (k (outcome child))
      → Runs (awaits kind child k)
  unfolding call await_suspend destroy get_return_object
  awaits-Runs kind child k first second i s c p b = after called.0 called.1 called.2
    where
      called :
          (t : Machine O R X) × Reaches t (enter i kind child k s)
          × Ran s.fresh child (enter i kind child k s) t
      called = first s.fresh (enter i kind child k s) refl (ground arith) (omega arith)

      after :
          (t : Machine O R X)
          → Reaches t (enter i kind child k s)
          → Ran s.fresh child (enter i kind child k s) t
          → (u : Machine O R X) × Reaches u s × Ran i (awaits kind child k) s u
      after t to_return v =
          let ran : (u : Machine O R X) × Reaches u (last kind child k i s t t b)
              × Ran i (k (outcome child)) (last kind child k i s t t b) u =
            second i (last kind child k i s t t b) refl (ground arith) (omega (arith, v.above)) in
          (
            ran.0,
            around kind child k i s t ran.0 b c p to_return v ran.1,
            awaits-Ran kind child k i s t ran.0 b v ran.2,
          )

  does-Runs : (o : O) (rest : Body O R X) → Runs rest → Runs (does o rest)
  does-Runs o rest runs i s c p b =
      let ran : (t : Machine O R X) × Reaches t (did i o rest s) × Ran i rest (did i o rest s) t =
        runs i (did i o rest s) c
          (ap (λ f. let q : Point O R X = f.point in q) (update_self s.frames i _)) b in
      (ran.0, stepped (step-did i o rest s c p) ran.1, does-Ran o rest i s ran.0 b ran.2)

  pub body-Runs : (body : Body O R X) → Runs body
  body-Runs (does o rest) = does-Runs o rest (body-Runs rest)
  body-Runs (awaits kind child k) =
      awaits-Runs kind child k (body-Runs child) (body-Runs (k (outcome child)))
  body-Runs (ends r) = λ i s c p b. (
    s,
    arrived,
    record {
      current = c;
      here = frame-eta (s.frames i) _ p;
      others = λ j l e. refl;
      above = omega arith;
      once = λ j l l'. absurd (omega arith);
      effects = simp append-nil;
    },
  )
