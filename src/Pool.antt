-- ===== src/Pool.antt =====
-- include/sl/exec/thread/pool/monolithic.hpp over
-- include/sl/exec/thread/detail/unbound_blocking_queue.hpp and
-- include/sl/exec/thread/sync/wait_group.hpp: a pool of threads with one queue and a counter of
-- unfinished tasks. A step is one operation under the mutex of the queue, one access of the counter,
-- or the run of a task.
pub mod Idle
pub mod Workers
mod Tests
use serious_execution_librar.Prelude.{
  ℕ, ◌+◌, ◌-◌, ◌%◌, ◌^◌, ◌<◌, ◌≡◌, Bool, true, false, Option, none, some, List, [], ◌∷◌, ◌++◌,
  if◌then◌else◌,
}
use serious_execution_librar.Intrusive.{IntrusiveList}

-- `tq` and `is_closed` are the queue, `work` the counter. `adding` counts the threads in `schedule`
-- between `add` and `push`, `running` holds the tasks that workers execute, and `finishing` counts the
-- workers between `execute` and `done`. `scheduled`, `refused` and `executed` record what happened.
pub record Pool (Q : Type 0) : Type 0 where
  pub tq : Q
  pub is_closed : Bool
  pub work : ℕ
  pub adding : ℕ
  pub running : List ℕ
  pub finishing : ℕ
  pub scheduled : List ℕ
  pub refused : List ℕ
  pub executed : List ℕ

-- `wait_group::add` of one and `wait_group::done`.
abbrev pub u32 : ℕ → ℕ
u32 x = x % 2 ^ 32

module _ {Q : Type 0} where
  -- The first line of `schedule`.
  pub add : Pool Q → Pool Q
  add s = record s { work = u32 (s.work + 1); adding = s.adding + 1 }

  pub close : Pool Q → Pool Q
  close s = record s { is_closed = true }

  -- The end of `execute`, for one of the tasks that run.
  pub execute : List ℕ → ℕ → List ℕ → Pool Q → Pool Q
  execute before n after s = record s {
    running = before ++ after;
    finishing = s.finishing + 1;
    executed = n ∷ s.executed;
  }

  pub finish : Pool Q → Pool Q
  finish s = record s { work = u32 (s.work + 2 ^ 32 - 1); finishing = s.finishing - 1 }

module _ {Q : Type 0} (L : IntrusiveList Q) where
  pub init : Pool Q
  init = record {
    tq = L.empty;
    is_closed = false;
    work = 0;
    adding = 0;
    running = [];
    finishing = 0;
    scheduled = [];
    refused = [];
    executed = [];
  }

  -- The second line of `schedule`, which drops what `push` returns.
  pub push : ℕ → Pool Q → Pool Q
  push n s =
      let t : Pool Q = record s { adding = s.adding - 1; scheduled = n ∷ s.scheduled } in
      if s.is_closed
      then record t { refused = n ∷ s.refused }
      else record t { tq = L.push_back s.tq n }

  -- `try_pop` in `worker_job`: `none` means that it waits, or that it is closed and the worker ends.
  pub try_pop : Pool Q → Option (Pool Q)
  try_pop s = elim (L.pop_front s.tq) [
    | none ↦ none
    | some (n, rest) ↦ some (record s { tq = rest; running = n ∷ s.running })
  ]

  -- Fewer than 2 ^ 32 tasks are unfinished at a time.
  pub data Step (s : Pool Q) : Pool Q → Type 0 where
    adds : s.work + 1 < 2 ^ 32 → Step s (add s)
    pushes : (n : ℕ) → 0 < s.adding → Step s (push n s)
    pops : {t : Pool Q} → try_pop s ≡ some t → Step s t
    executes :
        (before : List ℕ) (n : ℕ) (after : List ℕ)
        → s.running ≡ before ++ n ∷ after
        → Step s (execute before n after s)
    finishes : 0 < s.finishing → Step s (finish s)
    closes : Step s (close s)

  pub data Reach : Pool Q → Type 0 where
    start : Reach init
    later : {s t : Pool Q} → Reach s → Step s t → Reach t
