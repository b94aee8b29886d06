-- ===== src/Event/Mutex.antt =====
-- `mutex_event` of include/sl/exec/thread/event/mutex.hpp. `cv_.wait` returns when it is notified or by
-- itself; nothing notifies it.
use serious_execution_librar.Prelude.{◌≡◌, true, arith, if◌then◌else◌}
use serious_execution_librar.Event.{unset, set_returned, looking, asleep, wait_returned, Event}

unfoldable pub set : Event → Event
set s = record s { is_set = true; setter = set_returned }

-- A round of `wait`.
pub look : Event → Event
look s = record s { waiter = if s.is_set then wait_returned else asleep }

-- Steps, without the returns of `cv_.wait` by itself.
pub data Step (s : Event) : Event → Type 0 where
  sets : s.setter ≡ unset → Step s (set s)
  looks : s.waiter ≡ looking → Step s (look s)

-- What is reached from a state.
pub data Reach (first : Event) : Event → Type 0 where
  start : Reach first first
  later : {s t : Event} → Reach first s → Step s t → Reach first t

-- A thread that sleeps in `wait` of a mutex event sleeps for ever, whether the event is set or not, unless
-- `cv_.wait` returns without a notification.
pub mutex_event_lem : {s t : Event} → Reach s t → s.waiter ≡ asleep → t.waiter ≡ asleep
unfolding set look
mutex_event_lem start h = h
mutex_event_lem (later r (sets e)) h = mutex_event_lem r h
mutex_event_lem (later {s} r (looks e)) h = absurd (ground (arith, mutex_event_lem r h, e))
