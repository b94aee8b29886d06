-- ===== src/Event.antt =====
-- include/sl/exec/thread/event/atomic.hpp and include/sl/exec/thread/event/mutex.hpp: one thread that sets
-- an event and one that waits for it. A step is one access of the atomic, or what a thread does while it
-- holds the mutex.
pub mod Atomic
pub mod Mutex
mod Tests
use serious_execution_librar.Prelude.{Bool, true, false}

-- `set`: not called, before `notify_one`, returned.
pub data Setter : Type 0 where
  unset to_notify set_returned : Setter

-- `wait`: about to look, asleep, returned.
pub data Waiter : Type 0 where
  looking asleep wait_returned : Waiter

pub record Event : Type 0 where
  pub is_set : Bool
  pub setter : Setter
  pub waiter : Waiter

pub init : Event
init = record { is_set = false; setter = unset; waiter = looking }

abbrev pub woken : Waiter → Waiter
woken asleep = looking
woken w = w
