-- ===== src/Event/Tests.antt =====
-- Runs of the events of include/sl/exec/thread/event/.
use serious_execution_librar.Prelude.{◌≡◌, refl, false}
use serious_execution_librar.Event.{Event, unset, set_returned, asleep, wait_returned, init}
use serious_execution_librar.Event.Atomic
use serious_execution_librar.Event.Mutex
use serious_execution_librar.Event.Mutex.{mutex_event_lem}

-- The thread sleeps, and the event is set.
abbrev notified : Event
notified = Atomic.notify_one (Atomic.store (Atomic.load init))

Reach-notified : Atomic.Reach notified
unfolding init Atomic.load Atomic.store
Reach-notified =
    Atomic.later (Atomic.later (Atomic.later Atomic.start (Atomic.loads refl)) (Atomic.stores refl))
      (Atomic.notifies refl)

was_set : notified.setter ≡ set_returned
unfolding init Atomic.load Atomic.store Atomic.notify_one
was_set = refl

-- `wait` returns, and its thread may end the life of the event, before `set` notifies it.
returned_early : (Atomic.load (Atomic.store init)).waiter ≡ wait_returned
unfolding init Atomic.load Atomic.store
returned_early = refl

abbrev sleeping : Event
sleeping = record { is_set = false; setter = unset; waiter = asleep }

mutex_event_lem_example : (Mutex.set sleeping).waiter ≡ asleep
mutex_event_lem_example = mutex_event_lem (Mutex.later Mutex.start (Mutex.sets refl)) refl
