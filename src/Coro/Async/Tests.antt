-- ===== src/Coro/Async/Tests.antt =====
-- A coroutine that awaits another, of include/sl/exec/coro/.
use serious_execution_librar.Prelude.{ℕ, ◌<◌, ◌≤◌, ◌≡◌, some, [], ◌∷◌}
use serious_execution_librar.Slot.{Result, ok, err}
use serious_execution_librar.Coro.{returned}
use serious_execution_librar.Coro.Async.{
  coroutine, async, Body, does, awaits, ends, noop_coroutine, Machine, get_return_object, call, run,
  resume, cancel, coro_schedule, result,
}
use serious_execution_librar.Coro.Async.Roots.{resume_lem, coro_schedule_lem}

-- The awaited one does 2 and throws 7, which the other catches: it does 3 and returns the exception.
abbrev caught : Result ℕ ℕ → Body ℕ ℕ ℕ
caught (ok v) = ends (ok v)
caught (err x) = does 3 (ends (ok x))

abbrev outer : Body ℕ ℕ ℕ
outer = does 1 (awaits coroutine (does 2 (ends (err 7))) caught)

abbrev nothing : Machine ℕ ℕ ℕ
nothing = record {
  frames = λ j. get_return_object coroutine (ends (ok 0));
  fresh = 0;
  current = noop_coroutine;
  effects = [];
}

resume_lem_example :
    (n : ℕ) × (t : Machine ℕ ℕ ℕ) × (run n (resume 0 (call coroutine outer nothing)) ≡ some t)
    × ((t.current ≡ noop_coroutine)
        × (t.effects ≡ 1 ∷ 2 ∷ 3 ∷ [])
        × (result 0 t ≡ returned (ok 7))
        × ((t.frames 0).destroys ≡ 0)
        × ((j : ℕ) → 0 < j → j < t.fresh → (t.frames j).destroys ≡ 1)
        × ((j : ℕ) → j < 0 → t.frames j ≡ nothing.frames j))
resume_lem_example = resume_lem outer nothing

coro_schedule_lem_example :
    ((n : ℕ) × (t : Machine ℕ ℕ ℕ) × (run n (resume 0 (coro_schedule 0 (call async outer nothing)))
        ≡ some t)
      × ((t.current ≡ noop_coroutine)
          × (t.effects ≡ 1 ∷ 2 ∷ 3 ∷ [])
          × ((j : ℕ) → 0 ≤ j → j < t.fresh → (t.frames j).destroys ≡ 1)
          × ((j : ℕ) → j < 0 → t.frames j ≡ nothing.frames j)))
    × (((cancel 0 (coro_schedule 0 (call async outer nothing))).effects ≡ [])
        × (((cancel 0 (coro_schedule 0 (call async outer nothing))).frames 0).destroys ≡ 1)
        × ((j : ℕ)
            → j < 0
            → (cancel 0 (coro_schedule 0 (call async outer nothing))).frames j ≡ nothing.frames j))
coro_schedule_lem_example = coro_schedule_lem outer nothing
