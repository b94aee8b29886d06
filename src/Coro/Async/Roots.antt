-- ===== src/Coro/Async/Roots.antt =====
-- Coroutines that are resumed, scheduled or cancelled from outside: `coroutine::resume` and `result` of
-- include/sl/exec/coro/coroutine.hpp, and `coro_schedule` of src/coro/async.cpp.
use serious_execution_librar.Prelude.{
  ℕ, ◌<◌, ◌≤◌, ◌≡◌, refl, ap, ◌==◌, some, ◌++◌, arith, Bool-cases, inl, inr,
}
use serious_execution_librar.Coro.{returned}
use serious_execution_librar.Coro.Async.{
  coroutine, async, Body, noop_coroutine, frame, Point, at_body, Machine, get_return_object, call,
  destroy, final_suspend, finish, step_at, step, run, resume, cancel, coro_schedule, result,
}
use serious_execution_librar.Coro.Async.Calls.{
  outcome, effects_of, Reaches, arrived, stepped, Reaches-trans, run-Reaches, step-frame, Ran,
  body-Runs,
}

module _ {O R X : Type 0} (body : Body O R X) (s : Machine O R X) where
  -- A root whose frame runs from `start` gets to its final suspension, and past it.
  to_end :
      (start : Machine O R X) (P : Machine O R X → Type 0)
      → start.current ≡ frame s.fresh
      → (start.frames s.fresh).point ≡ at_body body
      → s.fresh < start.fresh
      → ((t : Machine O R X) → Ran s.fresh body start t → P (finish s.fresh (outcome body) t))
      → (n : ℕ) × (u : Machine O R X) × (run n start ≡ some u) × P u
  unfolding step_at
  to_end start P c p b facts = after ran.0 ran.1 ran.2
    where
      ran : (t : Machine O R X) × Reaches t start × Ran s.fresh body start t
      ran = body-Runs body s.fresh start c p b

      after :
          (t : Machine O R X)
          → Reaches t start
          → Ran s.fresh body start t
          → (n : ℕ) × (u : Machine O R X) × (run n start ≡ some u) × P u
      after t r v =
          let last_step : step t ≡ some (finish s.fresh (outcome body) t) =
            step-frame t s.fresh _ v.current
              (ap (λ f. let q : Point O R X = f.point in q) v.here) in
          let reached : (n : ℕ) × (run n start ≡ some (finish s.fresh (outcome body) t)) =
            run-Reaches (Reaches-trans r (stepped last_step arrived)) in
          (reached.0, finish s.fresh (outcome body) t, reached.1, facts t v)

  -- A coroutine that is called and resumed runs to its end, whatever it awaits, and control returns to
  -- its resumer. The effects are those of its body with each `co_await` read as a call, in that order,
  -- `result` gives what the body then returns or throws, each awaited coroutine was destroyed once, the
  -- coroutine itself was not, and the frames that were there before are as they were.
  pub resume_lem :
      (n : ℕ) × (t : Machine O R X) × (run n (resume s.fresh (call coroutine body s)) ≡ some t)
      × ((t.current ≡ noop_coroutine)
          × (t.effects ≡ s.effects ++ effects_of body)
          × (result s.fresh t ≡ returned (outcome body))
          × ((t.frames s.fresh).destroys ≡ 0)
          × ((j : ℕ) → s.fresh < j → j < t.fresh → (t.frames j).destroys ≡ 1)
          × ((j : ℕ) → j < s.fresh → t.frames j ≡ s.frames j))
  unfolding resume call get_return_object finish final_suspend result
  resume_lem =
      to_end (resume s.fresh (call coroutine body s)) _ refl (ground arith) (omega arith) (λ t v. (
        ground (arith, v.here),
        ground (arith, v.here, v.effects),
        ground (arith, v.here),
        ground (arith, v.here),
        λ j l l'. ground (arith, v.here, v.once j (omega arith)),
        λ j l. ground (arith, v.here, v.others j (omega arith) (ground arith)),
      ))

  -- An async coroutine given to `coro_schedule`, once its task is executed, has the effects of its body
  -- with each `co_await` read as a call, in that order, and control returns to the executor; it and each
  -- coroutine that it awaited were destroyed once, and the frames that were there before are as they
  -- were. If its task is cancelled instead, nothing happens but that it is destroyed once.
  pub coro_schedule_lem :
      ((n : ℕ) × (t : Machine O R X) × (run n
            (resume s.fresh (coro_schedule s.fresh (call async body s)))
          ≡ some t)
        × ((t.current ≡ noop_coroutine)
            × (t.effects ≡ s.effects ++ effects_of body)
            × ((j : ℕ) → s.fresh ≤ j → j < t.fresh → (t.frames j).destroys ≡ 1)
            × ((j : ℕ) → j < s.fresh → t.frames j ≡ s.frames j)))
      × (((cancel s.fresh (coro_schedule s.fresh (call async body s))).effects ≡ s.effects)
          × (((cancel s.fresh (coro_schedule s.fresh (call async body s))).frames s.fresh).destroys
              ≡ 1)
          × ((j : ℕ)
              → j < s.fresh
              → (cancel s.fresh (coro_schedule s.fresh (call async body s))).frames j ≡ s.frames j))
  unfolding resume call get_return_object finish final_suspend coro_schedule cancel destroy
  coro_schedule_lem = (
    to_end (resume s.fresh (coro_schedule s.fresh (call async body s))) _ refl (ground arith)
        (omega arith)
        (λ t v. (
          ground (arith, v.here),
          ground (arith, v.here, v.effects),
          λ j l l'. elim (Bool-cases (j == s.fresh)) [
            | inl own ↦ ground (arith, v.here)
            | inr other ↦ ground (arith, v.here, v.once j (ground arith))
          ],
          λ j l. ground (arith, v.here, v.others j (omega arith) (ground arith)),
        )),
    (refl, ground arith, λ j l. ground arith),
  )
