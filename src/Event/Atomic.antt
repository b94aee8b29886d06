-- ===== src/Event/Atomic.antt =====
-- `atomic_event` of include/sl/exec/thread/event/atomic.hpp. The wait of the atomic sleeps only while the
-- value is the old one, and returns when it is notified or by itself.
use serious_execution_librar.Prelude.{◌≡◌, ◌≢◌, refl, true, arith, if◌then◌else◌}
use serious_execution_librar.Event.{
  unset, to_notify, set_returned, looking, asleep, wait_returned, Event, init, woken,
}

-- `set` up to `notify_one`, and `notify_one`.
unfoldable pub store : Event → Event
store s = record s { is_set = true; setter = to_notify }

unfoldable pub notify_one : Event → Event
notify_one s = record s { setter = set_returned; waiter = woken s.waiter }

-- A load of `wait`, with the start of the wait of the atomic, which looks again before it sleeps.
unfoldable pub load : Event → Event
load s = record s { waiter = if s.is_set then wait_returned else asleep }

pub wake : Event → Event
wake s = record s { waiter = looking }

pub data Step (s : Event) : Event → Type 0 where
  stores : s.setter ≡ unset → Step s (store s)
  notifies : s.setter ≡ to_notify → Step s (notify_one s)
  loads : s.waiter ≡ looking → Step s (load s)
  wakes : s.waiter ≡ asleep → Step s (wake s)

pub data Reach : Event → Type 0 where
  start : Reach init
  later : {s t : Event} → Reach s → Step s t → Reach t

record Inv (s : Event) : Type 0 where
  stored : s.setter ≢ unset → s.is_set ≡ true
  kept : s.waiter ≡ wait_returned → s.is_set ≡ true
  told : s.setter ≡ set_returned → s.waiter ≢ asleep

Step-Inv : {s t : Event} → Step s t → Inv s → Inv t
unfolding store notify_one load wake
Step-Inv {s} (stores e) v = record { stored = λ h. refl; kept = λ h. refl; told = λ h. absurd (cc) }
Step-Inv {s} (notifies e) v = record {
  stored = λ h. v.stored (λ f. cc);
  kept = λ h. ground (arith, v.kept);
  told = λ h f. ground arith;
}
Step-Inv {s} (loads e) v = record {
  stored = v.stored;
  kept = λ h. ground arith;
  told = λ h f. ground (arith, v.stored (λ g. cc));
}
Step-Inv {s} (wakes e) v = record {
  stored = v.stored;
  kept = λ h. absurd (cc);
  told = λ h f. ground arith;
}

Reach-Inv : {s : Event} → Reach s → Inv s
unfolding init
Reach-Inv start = record {
  stored = λ h. absurd (h refl);
  kept = λ h. absurd (cc);
  told = λ h. absurd (cc);
}
Reach-Inv (later r st) = Step-Inv st (Reach-Inv r)

-- Once `set` of an atomic event has returned, in every reachable state, the event is set, and the waiting
-- thread does not sleep: its next look ends `wait`.
atomic_event_lem :
    {s : Event}
    → Reach s
    → s.setter ≡ set_returned
    → (s.is_set ≡ true) × (s.waiter ≢ asleep) × ((load s).waiter ≡ wait_returned)
unfolding load
atomic_event_lem {s} r h =
    let v : Inv s = Reach-Inv r in
    let set_ : s.is_set ≡ true = v.stored (λ f. cc) in (set_, v.told h, ground (arith, set_))
