-- ===== src/Serial.antt =====
-- include/sl/exec/algo/sync/serial.hpp, over the stack of include/sl/exec/thread/detail/lock_free_stack.hpp:
-- an executor that runs its tasks one at a time on another executor. A step is one atomic access of the
-- shared state, and threads interleave in any order. A client may call `stop` at any time, once at a time; from
-- then on `task_` may be scheduled while it is linked, which the inner executor does not allow.
pub mod Invariant
pub mod Order
mod Tests
use serious_execution_librar.Prelude.{
  ℕ, ◌+◌, ◌-◌, ◌%◌, ◌^◌, ◌<◌, ◌≡◌, ◌≢◌, Bool, true, false, Option, none, some, List, [], ◌∷◌, ◌++◌,
  ◌==◌, ltb, if◌then◌else◌, length,
}

pub data Handled : Type 0 where
  executed cancelled : ℕ → Handled

abbrev pub task_of : Handled → ℕ
task_of (executed n) = n
task_of (cancelled n) = n

-- One activation of `serial_executor_task::execute` or of `stop`: the tasks of the batch that are left,
-- the counter `batch_size`, which of the two it is, and whether it is `stop` before it extracts again.
pub record Run : Type 0 where
  pub todo : List ℕ
  pub batch_size : ℕ
  pub cancelling : Bool
  pub again : Bool

-- `batch`, head first, and `work`, a uint32_t, are the fields of the source. `pushing` counts the
-- threads in `schedule` between `push` and `fetch_add`, `queued` how often `task_` is scheduled on the
-- inner executor and not started, and `run` is its activation. `direct` is a call of `stop` by a client, and
-- `stopped` says whether there was one. `pushed` and `handled` record what happened.
pub record Serial : Type 0 where
  pub batch : List ℕ
  pub work : ℕ
  pub pushing : ℕ
  pub queued : ℕ
  pub run : Option Run
  pub direct : Option Run
  pub stopped : Bool
  pub pushed : List ℕ
  pub handled : List Handled

-- The tasks of a current batch, which `work` counts until the batch is finished.
abbrev pub batched : Option Run → ℕ
batched none = 0
batched (some r) = length r.todo + r.batch_size

abbrev pub outstanding : Serial → ℕ
outstanding s = length s.batch + batched s.run + batched s.direct

abbrev pub u32_mod : ℕ
u32_mod = 2 ^ 32

pub init : Serial
init = record {
  batch = [];
  work = 0;
  pushing = 0;
  queued = 0;
  run = none;
  direct = none;
  stopped = false;
  pushed = [];
  handled = [];
}

-- The first line of `schedule`: `batch_.push`.
pub push : ℕ → Serial → Serial
push n s = record s { batch = n ∷ s.batch; pushing = s.pushing + 1; pushed = s.pushed ++ n ∷ [] }

-- The rest of `schedule`.
pub announce : Serial → Serial
announce s = record s {
  work = (s.work + 1) % u32_mod;
  pushing = s.pushing - 1;
  queued = if s.work == 0 then s.queued + 1 else s.queued;
}

abbrev pub handle : Bool → ℕ → Handled
handle true n = cancelled n
handle false n = executed n

-- The body of the `for_each` in `execute` and in `stop`, for the next task.
pub run_one : Run → Serial → Serial
run_one r s = elim r.todo [
  | [] ↦ s
  | n ∷ rest ↦ record s {
    run = some (record r { todo = rest; batch_size = r.batch_size + 1 });
    handled = s.handled ++ handle r.cancelling n ∷ [];
  }
]

-- The same in a client's `stop`.
pub direct_one : Run → Serial → Serial
direct_one r s = elim r.todo [
  | [] ↦ s
  | n ∷ rest ↦ record s {
    direct = some (record r { todo = rest; batch_size = r.batch_size + 1 });
    handled = s.handled ++ cancelled n ∷ [];
  }
]

-- A `stop` that calls itself, before it extracts.
abbrev pub stop_again : Run
stop_again = record { todo = []; batch_size = 0; cancelling = true; again = true }

-- `work_.fetch_sub(batch_size)`.
abbrev pub sub_work : ℕ → Serial → Serial
sub_work batch_size s = record s { work = (s.work + u32_mod - batch_size) % u32_mod }

-- After the batch: `execute` schedules itself again, `stop` calls itself again.
pub finish : Run → Serial → Serial
finish r s =
    let s' : Serial = record (sub_work r.batch_size s) { run = none } in
    if ltb r.batch_size s.work
    then (if r.cancelling
        then record s' { run = some stop_again }
        else record s' { queued = s.queued + 1 })
    else s'

pub direct_finish : Run → Serial → Serial
direct_finish r s = record (sub_work r.batch_size s) {
  direct = if ltb r.batch_size s.work then some stop_again else none;
}

-- `intrusive_forward_list_node_reverse` comes from outside.
module _ (node_reverse : List ℕ → List ℕ) where
  abbrev pub extracted_batch : Bool → List ℕ → Run
  extracted_batch cancelling batch = record {
    todo = node_reverse batch;
    batch_size = 0;
    cancelling = cancelling;
    again = false;
  }

  -- `batch_.extract`.
  pub extract : Bool → Serial → Serial
  extract cancelling s = record s { batch = []; run = some (extracted_batch cancelling s.batch) }

  -- The inner executor executes `task_`, or cancels it.
  pub begin : Bool → Serial → Serial
  unfolding extract
  begin cancelling s = extract cancelling (record s { queued = s.queued - 1 })

  -- `stop`, called by a client.
  pub stop : Serial → Serial
  stop s = record s { batch = []; direct = some (extracted_batch true s.batch); stopped = true }

  -- The counters of clients stay below 2 ^ 32: threads inside `schedule`, and outstanding tasks.
  pub data Step (s : Serial) : Serial → Type 0 where
    pushes : (n : ℕ) → outstanding s + 1 < u32_mod → s.pushing + 1 < u32_mod → Step s (push n s)
    announces : 0 < s.pushing → Step s (announce s)
    begins : (cancelling : Bool) → 0 < s.queued → Step s (begin cancelling s)
    runs : (r : Run) → s.run ≡ some r → r.todo ≢ [] → Step s (run_one r s)
    finishes : (r : Run) → s.run ≡ some r → r.todo ≡ [] → r.again ≡ false → Step s (finish r s)
    extracts : (r : Run) → s.run ≡ some r → r.again ≡ true → Step s (extract true s)
    stops : s.direct ≡ none → Step s (stop s)
    direct_runs : (r : Run) → s.direct ≡ some r → r.todo ≢ [] → Step s (direct_one r s)
    direct_finishes :
        (r : Run) → s.direct ≡ some r → r.todo ≡ [] → r.again ≡ false → Step s (direct_finish r s)
    direct_extracts : (r : Run) → s.direct ≡ some r → r.again ≡ true → Step s (stop s)

  pub data Reach : Serial → Type 0 where
    start : Reach init
    later : {s t : Serial} → Reach s → Step s t → Reach t
