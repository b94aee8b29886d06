-- ===== src/Coro/Await.antt =====
-- include/sl/exec/coro/await.hpp and include/sl/exec/coro/as_signal.hpp: a coroutine that awaits a signal,
-- and the signal of a coroutine. A coroutine is the tree of tasks through which it runs to its end.
pub mod Bridge
mod Tests
use serious_execution_librar.Prelude.{
  ℕ, Bool, true, false, Option, none, some, List, [], ◌∷◌, ◌++◌, if◌then◌else◌,
}
use serious_execution_librar.Slot.{Result, ok, err, Completion, value, error, null, of_result}
use serious_execution_librar.Signal.{Act, done, lost, scheduled, Slot, Signal}

-- What became of the frame of a coroutine: it is over, or its handle was destroyed, or an assertion failed.
pub data Fate (R X : Type 0) : Type 0 where
  returned : R → Fate R X
  thrown : X → Fate R X
  destroyed : Fate R X
  aborted : Fate R X

module _ {R X V E : Type 0} where
  -- `signal_awaiter::await_resume` with its assertion, then the rest of the body.
  pub await_resume : (Result V E → Act (Fate R X)) → Option (Result V E) → Act (Fate R X)
  await_resume body none = done aborted
  await_resume body (some r) = body r

  -- `awaiter_task`: `execute` resumes the handle, `cancel` destroys it.
  pub awaiter_task : (Result V E → Act (Fate R X)) → Option (Result V E) → Bool → Act (Fate R X)
  unfolding await_resume
  awaiter_task body maybe_result executed =
      if executed then await_resume body maybe_result else done destroyed

  -- The slot keeps the result where the awaiter reads it, and schedules the task on the executor of the
  -- signal. Null cancels the task at once.
  pub awaiter_slot : ℕ → (Result V E → Act (Fate R X)) → Option (Result V E) → Slot (Fate R X) V E
  unfolding awaiter_task
  awaiter_slot ex body maybe_result (value v) = scheduled ex (awaiter_task body (some (ok v)))
  awaiter_slot ex body maybe_result (error e) = scheduled ex (awaiter_task body (some (err e)))
  awaiter_slot ex body maybe_result null = awaiter_task body maybe_result false

  -- `co_await` of a signal: `await_suspend` subscribes and emits. `body` is what follows in the coroutine.
  pub co_await : Signal (Fate R X) V E → (Result V E → Act (Fate R X)) → Act (Fate R X)
  unfolding awaiter_slot
  co_await signal body = signal.connect (awaiter_slot signal.get_executor body none)

-- What follows when the coroutine has met its fate.
pub bind : {P O : Type 0} → Act P → (P → Act O) → Act O
bind (done p) next = next p
bind lost next = lost
bind (scheduled ex tasks) next = scheduled ex (λ executed. bind (tasks executed) next)

-- Where the frame of `make_connection_coro` is.
pub data Place : Type 0 where
  initial_suspend at_co_await destroyed_frame : Place

-- Its variables, with the calls that its slot has received.
pub record Connection (V X : Type 0) : Type 0 where
  pub place : Place
  pub is_fulfilled : Bool
  pub calls : List (Completion V X)

module _ {V X : Type 0} where
  pub new_connection : Connection V X
  new_connection = record { place = initial_suspend; is_fulfilled = false; calls = [] }

  abbrev call_slot : Completion V X → Connection V X → Connection V X
  call_slot x c = record c { calls = c.calls ++ x ∷ [] }

  -- The action of `meta::defer`, at the end of the scope.
  pub set_null_if_not_fulfilled : Connection V X → Connection V X
  set_null_if_not_fulfilled c = if c.is_fulfilled then c else call_slot null c

  -- `destroy` of the frame: of its variables only those are destroyed that were constructed.
  pub destroy : Connection V X → Connection V X
  unfolding set_null_if_not_fulfilled
  destroy c = elim c.place [
    | initial_suspend ↦ record c { place = destroyed_frame }
    | at_co_await ↦ record (set_null_if_not_fulfilled c) { place = destroyed_frame }
    | destroyed_frame ↦ c
  ]

  -- The body from its resumption, with what `co_await std::move(an_async)` returns or throws: to the end of
  -- its scope, and at its final suspension the frame destroys itself, since it was released.
  pub resume : Result V X → Connection V X → Connection V X
  unfolding set_null_if_not_fulfilled
  resume r c =
      let called : Connection V X = call_slot (of_result r) c in
      let fulfilled : Connection V X = record called { is_fulfilled = true } in
      record (set_null_if_not_fulfilled fulfilled) { place = destroyed_frame }

  -- What the awaited coroutine's fate does to the frame, which is its continuation: at its final suspension
  -- it resumes the continuation, and `destroy` of its handle resumes nothing.
  pub continue_with : Fate V X → Connection V X → Connection V X
  unfolding resume
  continue_with (returned v) c = resume (ok v) c
  continue_with (thrown x) c = resume (err x) c
  continue_with destroyed c = c
  continue_with aborted c = c

  -- `make_connection_coro` from its start.
  pub make_connection_coro : Act (Fate V X) → Act (Connection V X)
  unfolding bind continue_with new_connection
  make_connection_coro an_async =
      let waiting : Connection V X = record new_connection { place = at_co_await } in
      bind an_async (λ fate. done (continue_with fate waiting))

  -- `async_connection::emit`, by `coro_schedule`, whose task executes or destroys the frame.
  pub emit : ℕ → Act (Fate V X) → Act (Connection V X)
  unfolding make_connection_coro destroy new_connection
  emit ex an_async = scheduled ex (λ executed.
      if executed then make_connection_coro an_async else done (destroy new_connection))

  -- `async_signal`: its executor, and the emission of its connection.
  pub async_signal : Act (Fate V X) → ℕ × Act (Connection V X)
  unfolding emit
  async_signal an_async = (0, emit 0 an_async)
