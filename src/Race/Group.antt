-- ===== src/Race/Group.antt =====
-- include/sl/exec/algo/sync/detail/parallel.hpp: the handlers of a group of connections together with the
-- tasks that they and the emission schedule, which the serial executor runs in the order of scheduling.
pub mod Effects
mod Tests
use serious_execution_librar.Prelude.{
  ℕ, ◌≡◌, ◌+◌, Bool, true, false, Option, List, [], ◌∷◌, ◌++◌, ◌==◌, if◌then◌else◌,
}
use serious_execution_librar.Race.{Race, init, u32}
use serious_execution_librar.Race.Protocol
use serious_execution_librar.Parallel.{Task, emit_task, try_cancel_beside_task, delete_this_task}

-- `tasks` are those scheduled so far, and `emitted` says whether that of the emission is among them.
pub record Group (I O : Type 0) : Type 0 where
  pub race : Race I O
  pub tasks : List Task
  pub emitted : Bool

module _ {I O : Type 0} where
  unfoldable pub initial_group : Group I O
  initial_group = record { race = init; tasks = []; emitted = false }

  pub schedule_try_cancel_beside : ℕ → Group I O → Group I O
  schedule_try_cancel_beside excluded_index g = record g {
    tasks = g.tasks ++ try_cancel_beside_task excluded_index ∷ [];
  }

  pub schedule_delete_this : Group I O → Group I O
  schedule_delete_this g = record g { tasks = g.tasks ++ delete_this_task ∷ [] }

  unfoldable pub emit_impl : Group I O → Group I O
  emit_impl g = record g { tasks = g.tasks ++ emit_task ∷ []; emitted = true }

module _ {I O : Type 0} (leads : I → Bool) (out : ℕ → I → O) (ending : (ℕ → Option I) → I → O)
    (n : ℕ) where
  -- What a handler schedules in one of its steps.
  pub scheduled : {s t : Race I O} → Protocol.Step leads out ending n s t → Group I O → Group I O
  unfolding schedule_try_cancel_beside schedule_delete_this
  scheduled {s} (Protocol.Step.leading i x b e l) g =
      if s.done then g else schedule_try_cancel_beside i g
  scheduled (Protocol.Step.trailing i x b e l) g = g
  scheduled {s} (Protocol.Step.counts i b e) g =
      if u32 (s.counter + 1) == n then schedule_delete_this g else g
  scheduled (Protocol.Step.settles i x b e) g = schedule_delete_this g
  scheduled (Protocol.Step.claims i b e free) g = g
  scheduled (Protocol.Step.skips i x b e l) g = schedule_try_cancel_beside i g

  unfoldable pub handle :
      (g : Group I O) {t : Race I O} → Protocol.Step leads out ending n g.race t → Group I O
  unfolding scheduled
  handle g {t} st = record (scheduled st g) { race = t }

  -- The handlers run, and the emission's task is scheduled at any time.
  pub data Step (g : Group I O) : Group I O → Type 0 where
    handles : {t : Race I O} (st : Protocol.Step leads out ending n g.race t) → Step g (handle g st)
    emits : g.emitted ≡ false → Step g (emit_impl g)

  pub data Reach : Group I O → Type 0 where
    start : Reach initial_group
    later : {g h : Group I O} → Reach g → Step g h → Reach h
