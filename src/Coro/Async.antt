-- ===== src/Coro/Async.antt =====
-- include/sl/exec/coro/coroutine.hpp, include/sl/exec/coro/async.hpp and src/coro/async.cpp: coroutines
-- that await one another. The body of a coroutine is code of its user: a parameter, as the tree of what
-- it does next. A step is what the machine does between two transfers of control.
pub mod Calls
pub mod Roots
mod Tests
use serious_execution_librar.Prelude.{
  ℕ, zero, suc, ◌+◌, ◌==◌, if◌then◌else◌, Option, none, some, List, [], ◌∷◌, ◌++◌, update,
}
use serious_execution_librar.Slot.{Result, ok, err}
use serious_execution_librar.Coro.{
  Outcome, returned, thrown, aborted, return_value, unhandled_exception, get_return,
  get_return_or_throw,
}

-- `coroutine<T>` or `async<T>`.
pub data Kind : Type 0 where
  coroutine async : Kind

-- `does o` is an effect. `awaits kind child k` calls a coroutine with body `child`, awaits it, and goes on
-- with what `await_resume` returns or throws.
pub data Body (O R X : Type 0) : Type 0 where
  does : O → Body O R X → Body O R X
  awaits : Kind → Body O R X → (Result R X → Body O R X) → Body O R X
  ends : Result R X → Body O R X

-- A `std::coroutine_handle<>`: null, the one of the coroutine that does nothing, or a frame.
pub data Handle : Type 0 where
  nullptr noop_coroutine : Handle
  frame : ℕ → Handle

-- Where a coroutine is: before the next part of its body, suspended until `child` is over, at its final
-- suspension, or destroyed.
pub data Point (O R X : Type 0) : Type 0 where
  at_body : Body O R X → Point O R X
  awaiting : ℕ → (Result R X → Body O R X) → Point O R X
  done : Point O R X
  destroyed : Point O R X

pub record Frame (O R X : Type 0) : Type 0 where
  pub kind : Kind
  pub point : Point O R X
  pub continuation : Handle
  pub maybe_return : Option (Result R X)
  pub destroys : ℕ

-- `current` is what runs, `fresh` the first frame that was never allocated.
pub record Machine (O R X : Type 0) : Type 0 where
  pub frames : ℕ → Frame O R X
  pub fresh : ℕ
  pub current : Handle
  pub effects : List O

module _ {O R X : Type 0} where
  -- The frame of a call, suspended before its body, with the `continuation` of its promise.
  pub get_return_object : Kind → Body O R X → Frame O R X
  get_return_object kind body = record {
    kind = kind;
    point = at_body body;
    continuation = elim kind [ coroutine ↦ nullptr | async ↦ noop_coroutine ];
    maybe_return = none;
    destroys = 0;
  }

  abbrev set_point : ℕ → Point O R X → Machine O R X → Machine O R X
  set_point i p s = record s { frames = update s.frames i (record (s.frames i) { point = p }) }

  pub destroy : ℕ → Machine O R X → Machine O R X
  destroy i s = record s {
    frames =
        update s.frames i
          (record (s.frames i) { point = destroyed; destroys = (s.frames i).destroys + 1 });
  }

  pub call : Kind → Body O R X → Machine O R X → Machine O R X
  unfolding get_return_object
  call kind body s = record s {
    frames = update s.frames s.fresh (get_return_object kind body);
    fresh = s.fresh + 1;
  }

  -- `awaiter::await_suspend`, whose assertion holds for a frame that was just made: the awaited frame
  -- gets the continuation and runs.
  pub await_suspend : ℕ → ℕ → Machine O R X → Machine O R X
  await_suspend child i s = record s {
    frames = update s.frames child (record (s.frames child) { continuation = frame i });
    current = frame child;
  }

  -- `awaiter::await_resume` with its assertion.
  pub await_resume : ℕ → Machine O R X → Outcome R X
  unfolding get_return_or_throw
  await_resume child s = elim (s.frames child).point [
    | done ↦ (get_return_or_throw (s.frames child).maybe_return).0
    | _ ↦ aborted
  ]

  -- `final_awaiter::await_suspend` of the frame `i`.
  pub final_suspend : ℕ → Machine O R X → Machine O R X
  unfolding destroy
  final_suspend i s = elim (s.frames i).continuation [
    | nullptr ↦ elim (s.frames i).kind [
      | coroutine ↦ record s { current = noop_coroutine }
      | async ↦ record (destroy i s) { current = noop_coroutine }
    ]
    | continuation ↦ record s { current = continuation }
  ]

  -- The end of the body of the frame `i`, by `co_return` or by an exception.
  pub finish : ℕ → Result R X → Machine O R X → Machine O R X
  unfolding final_suspend return_value unhandled_exception
  finish i r s =
      let m : Option (Result R X) = elim r [
        | ok v ↦ return_value v
        | err x ↦ unhandled_exception x
      ] in
      final_suspend i (record s {
        frames = update s.frames i (record (s.frames i) { point = done; maybe_return = m });
      })

  -- What `i` does after `await_resume` has ended, and the temporary that held `child` is destroyed.
  pub resume_with :
      ℕ → ℕ → (Result R X → Body O R X) → Outcome R X → Machine O R X → Option (Machine O R X)
  unfolding destroy
  resume_with i child k (returned v) s = some (set_point i (at_body (k (ok v))) (destroy child s))
  resume_with i child k (thrown x) s = some (set_point i (at_body (k (err x))) (destroy child s))
  resume_with i child k aborted s = none

  -- The frame `i`, which runs: none where it must not be resumed.
  pub step_at : ℕ → Point O R X → Machine O R X → Option (Machine O R X)
  unfolding call await_suspend await_resume finish resume_with
  step_at i (at_body (does o rest)) s =
      some (record (set_point i (at_body rest) s) { effects = s.effects ++ o ∷ [] })
  step_at i (at_body (awaits kind child k)) s =
      some (await_suspend s.fresh i (call kind child (set_point i (awaiting s.fresh k) s)))
  step_at i (at_body (ends r)) s = some (finish i r s)
  step_at i (awaiting child k) s = resume_with i child k (await_resume child s) s
  step_at i done s = none
  step_at i destroyed s = none

  -- Nothing runs while the machine has returned to its resumer.
  pub step : Machine O R X → Option (Machine O R X)
  unfolding step_at
  step s = elim s.current [
    | nullptr ↦ none
    | noop_coroutine ↦ some s
    | frame i ↦ step_at i (s.frames i).point s
  ]

  pub run : ℕ → Machine O R X → Option (Machine O R X)
  unfolding step
  run zero s = some s
  run (suc n) s = elim (step s) [ none ↦ none | some t ↦ run n t ]

  -- `coroutine::resume`, and `async_task_mixin::execute`.
  pub resume : ℕ → Machine O R X → Machine O R X
  resume i s = record s { current = frame i }

  -- `async_task_mixin::cancel`.
  pub cancel : ℕ → Machine O R X → Machine O R X
  unfolding destroy
  cancel i s = destroy i s

  -- `coro_schedule` up to `executor.schedule`: the frame belongs to its task.
  pub coro_schedule : ℕ → Machine O R X → Machine O R X
  coro_schedule i s = record s {
    frames = update s.frames i (record (s.frames i) { continuation = nullptr });
  }

  -- `coroutine::result`.
  pub result : ℕ → Machine O R X → Outcome (Result R X) X
  unfolding get_return
  result i s = elim (s.frames i).point [
    | done ↦ (get_return (s.frames i).maybe_return).0
    | _ ↦ aborted
  ]
