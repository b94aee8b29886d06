-- ===== src/Coro/Await/Bridge.antt =====
-- Signals inside coroutines inside signals, of include/sl/exec/coro/.
use serious_execution_librar.Prelude.{
  ℕ, ◌≡◌, refl, Bool, true, false, Option, none, some, [], ◌∷◌, arith, if◌then◌else◌, ◌∙◌,
}
use serious_execution_librar.Slot.{Result, ok, err, Completion, value, error, null, of_result}
use serious_execution_librar.Signal.{Act, done, lost, scheduled, Signal}
use serious_execution_librar.Signal.Laws.{settle, Completes}
use serious_execution_librar.Coro.Await.{
  Fate, returned, thrown, destroyed, await_resume, awaiter_task, awaiter_slot, co_await, bind,
  at_co_await, destroyed_frame, Connection, new_connection, continue_with,
}

-- What awaiting comes to: the body goes on with the value or the error if the executor executes its task,
-- and the frame of the coroutine is destroyed if it cancels the task, and for null.
pub awaited :
    {R X V E : Type 0} → Bool → (Result V E → Act (Fate R X)) → Completion V E → Act (Fate R X)
awaited runs body (value v) = if runs then body (ok v) else done destroyed
awaited runs body (error e) = if runs then body (err e) else done destroyed
awaited runs body null = done destroyed

-- A coroutine that awaits a signal which completes once goes on as `awaited` says, and no assertion of
-- `await_resume` fails.
pub co_await_lem :
    {R X V E : Type 0} (executes : ℕ → Bool) (s : Signal (Fate R X) V E) (x : Completion V E)
    (body : Result V E → Act (Fate R X))
    → Completes executes s x
    → settle executes (co_await s body) ≡ settle executes (awaited (executes s.get_executor) body x)
unfolding co_await awaiter_slot awaiter_task await_resume awaited settle
co_await_lem executes s x body completes = completes _ ∙ by_case x
  where
    by_case :
        (y : Completion _ _)
        → settle executes (awaiter_slot s.get_executor body none y)
          ≡ settle executes (awaited (executes s.get_executor) body y)
    by_case (value v) = ground arith
    by_case (error e) = ground arith
    by_case null = refl

-- What settles after a fate, of which there may be none.
abbrev pub after : {P O : Type 0} → (P → Option O) → Option P → Option O
after next none = none
after next (some p) = next p

pub settle-bind :
    {P O : Type 0} (executes : ℕ → Bool) (a : Act P) (next : P → Act O)
    → settle executes (bind a next) ≡ after (λ p. settle executes (next p)) (settle executes a)
unfolding settle bind
settle-bind executes (done p) next = refl
settle-bind executes lost next = refl
settle-bind executes (scheduled ex tasks) next = settle-bind executes (tasks (executes ex)) next

-- The end of a coroutine that returns or throws.
abbrev pub ends : {R X : Type 0} → Result R X → Act (Fate R X)
ends (ok r) = done (returned r)
ends (err x) = done (thrown x)

-- The frame of `make_connection_coro` in the end, with the calls of its slot; `started` and `runs` say whether
-- the two executors execute their tasks.
pub relayed :
    {V E W X : Type 0} → Bool → Bool → (Result V E → Result W X) → Completion V E → Connection W X
relayed false runs f x = record { place = destroyed_frame; is_fulfilled = false; calls = [] }
relayed true true f (value v) = record {
  place = destroyed_frame;
  is_fulfilled = true;
  calls = of_result (f (ok v)) ∷ [];
}
relayed true true f (error e) = record {
  place = destroyed_frame;
  is_fulfilled = true;
  calls = of_result (f (err e)) ∷ [];
}
relayed true runs f x = record { place = at_co_await; is_fulfilled = false; calls = [] }

module _ {V E W X : Type 0} (executes : ℕ → Bool) (f : Result V E → Result W X) where
  abbrev frame_after : Fate W X → Option (Connection W X)
  frame_after fate = some (continue_with fate (record new_connection { place = at_co_await }))
