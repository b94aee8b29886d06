-- ===== src/Pool/Workers.antt =====
-- The threads of include/sl/exec/thread/pool/monolithic.hpp, with their condition variable in
-- include/sl/exec/thread/detail/unbound_blocking_queue.hpp, and src/thread/pool/config.cpp. A step is what
-- a thread does while it holds the mutex of the queue, the run of a task, or a join.
pub mod Wakeup
mod Tests
use serious_execution_librar.Prelude.{
  ℕ, ◌+◌, ◌<◌, ◌≡◌, ◌≢◌, ◌⊎◌, Bool, true, false, Option, none, some, List, [], ◌∷◌, ◌==◌,
  if◌then◌else◌, min, update,
}
use serious_execution_librar.Intrusive.{IntrusiveList}

-- `thread_pool_config::with_hw_limit`, with what `std::thread::hardware_concurrency` gives.
pub with_hw_limit : ℕ → ℕ → ℕ
with_hw_limit hwc tcount = if hwc == 0 then tcount else min tcount hwc

-- `thread_pool_config::hw_limit`.
pub hw_limit : ℕ → Option ℕ
hw_limit hwc = if hwc == 0 then none else some hwc

-- Before it takes the mutex in `try_pop`, asleep in `event_.wait`, in `execute`, or at its end.
pub data Worker : Type 0 where
  looking waiting : Worker
  executing : ℕ → Worker
  exited : Worker

-- `joined` counts the workers that `stop` has joined. `scheduled`, `refused` and `executed` record what
-- happened to tasks.
pub record Workers (Q : Type 0) : Type 0 where
  pub q : Q
  pub is_closed : Bool
  pub workers : ℕ → Worker
  pub joined : ℕ
  pub scheduled : List ℕ
  pub refused : List ℕ
  pub executed : List ℕ

abbrev pub woken : Worker → Worker
woken waiting = looking
woken w = w

module _ {Q : Type 0} where
  abbrev set_worker : ℕ → Worker → Workers Q → Workers Q
  set_worker i w s = record s { workers = update s.workers i w }

  -- `notify_one`, which wakes the given worker, and `notify_all`.
  pub notify_one : Option ℕ → Workers Q → Workers Q
  notify_one none s = s
  notify_one (some i) s = set_worker i looking s

  pub notify_all : Workers Q → Workers Q
  notify_all s = record s { workers = λ i. woken (s.workers i) }

  pub close : Workers Q → Workers Q
  unfolding notify_all
  close s = if s.is_closed then s else notify_all (record s { is_closed = true })

  -- The end of `execute` in `worker_job`.
  pub execute : ℕ → ℕ → Workers Q → Workers Q
  execute i n s = record (set_worker i looking s) { executed = n ∷ s.executed }

  -- `event_.wait` returns without a notification.
  pub wake : ℕ → Workers Q → Workers Q
  wake i s = set_worker i looking s

  -- `worker.join()` returns.
  pub join : Workers Q → Workers Q
  join s = record s { joined = s.joined + 1 }

module _ {Q : Type 0} (L : IntrusiveList Q) where
  pub init : Workers Q
  init = record {
    q = L.empty;
    is_closed = false;
    workers = λ i. looking;
    joined = 0;
    scheduled = [];
    refused = [];
    executed = [];
  }

  -- `q_.empty()`.
  pub is_empty : Q → Bool
  is_empty q = elim (L.pop_front q) [ none ↦ true | some r ↦ false ]

  -- `push`, with the worker that `notify_one` wakes, if it is called and one sleeps.
  pub push : ℕ → Option ℕ → Workers Q → Workers Q
  unfolding is_empty notify_one
  push n sleeper s =
      let t : Workers Q = record s { scheduled = n ∷ s.scheduled } in
      if s.is_closed
      then record t { refused = n ∷ s.refused }
      else (let pushed : Workers Q = record t { q = L.push_back s.q n } in
          if is_empty s.q then notify_one sleeper pushed else pushed)

  -- A round of `try_pop` in the worker `i`: it sleeps, takes a task, or returns null and the job ends.
  pub try_pop : ℕ → Workers Q → Workers Q
  try_pop i s = elim (L.pop_front s.q) [
    | none ↦ if s.is_closed then set_worker i exited s else set_worker i waiting s
    | some (n, rest) ↦ record (set_worker i (executing n) s) { q = rest }
  ]

  -- The pool has `tcount` workers. A sleeper that is notified does sleep, and there is none only if no
  -- worker sleeps.
  pub data Step (tcount : ℕ) (s : Workers Q) : Workers Q → Type 0 where
    pushes :
        (n : ℕ) (i : ℕ) → i < tcount → s.workers i ≡ waiting → Step tcount s (push n (some i) s)
    pushes_alone :
        (n : ℕ) → ((i : ℕ) → i < tcount → s.workers i ≢ waiting) → Step tcount s (push n none s)
    pops : (i : ℕ) → i < tcount → s.workers i ≡ looking → Step tcount s (try_pop i s)
    executes : (i n : ℕ) → i < tcount → s.workers i ≡ executing n → Step tcount s (execute i n s)
    wakes : (i : ℕ) → i < tcount → s.workers i ≡ waiting → Step tcount s (wake i s)
    closes : Step tcount s (close s)
    joins :
        s.is_closed ≡ true
        → s.joined < tcount
        → s.workers s.joined ≡ exited
        → Step tcount s (join s)

  pub data Reach (tcount : ℕ) : Workers Q → Type 0 where
    start : Reach tcount init
    later : {s t : Workers Q} → Reach tcount s → Step tcount s t → Reach tcount t
