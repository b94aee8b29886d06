-- ===== src/Signal/Emitters.antt =====
-- include/sl/exec/algo/emit/detach.hpp and include/sl/exec/algo/emit/subscribe.hpp: the ends of a pipeline that
-- wait for nothing.
use serious_execution_librar.Prelude.{ℕ, ◌≡◌, refl, Bool, some, ◌∙◌}
use serious_execution_librar.Slot.{Completion, value, error, null}
use serious_execution_librar.Signal.{Act, done, lost, Slot, Signal}
use serious_execution_librar.Signal.Laws.{settle, Completes}

-- What deletes the connection that `detach` allocates.
pub data Deleted : Type 0 where
  delete_self : Deleted

module _ {V E : Type 0} where
  pub detach_slot : Slot Deleted V E
  detach_slot (value v) = done delete_self
  detach_slot (error e) = done delete_self
  detach_slot null = done delete_self

  -- `detach_emit`: the new connection is emitted, and its slot deletes it.
  pub detach : Signal Deleted V E → Act Deleted
  unfolding detach_slot
  detach signal = signal.connect detach_slot

  -- The connection of a detached signal that completes once is deleted.
  pub detach_lem :
      (executes : ℕ → Bool) (s : Signal Deleted V E) (x : Completion V E)
      → Completes executes s x
      → settle executes (detach s) ≡ some delete_self
  unfolding detach settle
  detach_lem executes s x completes = completes _ ∙ by_case x
    where
      by_case : (y : Completion V E) → settle executes (detach_slot y) ≡ some delete_self
      by_case (value v) = refl
      by_case (error e) = refl
      by_case null = refl

module _ {O V E : Type 0} where
  -- `dummy_slot` drops its completion.
  pub dummy_slot : Slot O V E
  dummy_slot x = lost

  -- `subscribe_emit`, up to the emission of the connection that it gives.
  pub subscribe : Signal O V E → Act O
  unfolding dummy_slot
  subscribe signal = signal.connect dummy_slot
