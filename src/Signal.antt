-- ===== src/Signal.antt =====
-- Signals and slots: include/sl/exec/model/, and the signals of include/sl/exec/algo/make/,
-- include/sl/exec/algo/tf/seq/, include/sl/exec/algo/tf/type/, include/sl/exec/algo/sched/on.hpp and
-- include/sl/exec/algo/emit/get.hpp. A signal is what it does once a slot is subscribed and the
-- connection is emitted: a tree of scheduled tasks that end in calls of the slot. Executors are
-- numbers, and 0 is `inline_executor()`.
pub mod Emitters
pub mod Laws
mod Tests
use serious_execution_librar.Prelude.{ℕ, Bool, Option, none, some, if◌then◌else◌}
use serious_execution_librar.Slot.{Result, ok, err, Completion, value, error, null, fulfill_slot}

-- `lost` is a return that completes nothing. `scheduled` hands a task to an executor, and goes on with
-- `execute` for true and with `cancel` for false.
pub data Act (O : Type 0) : Type 0 where
  done : O → Act O
  lost : Act O
  scheduled : ℕ → (Bool → Act O) → Act O

abbrev pub Slot : Type 0 → Type 0 → Type 0 → Type 0
Slot O V E = Completion V E → Act O

-- `subscribe` with a slot, then `emit`.
pub record Signal (O V E : Type 0) : Type 0 where
  pub get_executor : ℕ
  pub connect : Slot O V E → Act O

module _ {O V E : Type 0} where
  -- `result_signal`.
  unfoldable pub result_signal : Option (Result V E) → Signal O V E
  result_signal maybe_result = record {
    get_executor = 0;
    connect = λ slot. slot (fulfill_slot maybe_result);
  }

  unfoldable pub value_as_signal : V → Signal O V E
  unfolding result_signal
  value_as_signal v = result_signal (some (ok v))

  pub error_as_signal : E → Signal O V E
  unfolding result_signal
  error_as_signal e = result_signal (some (err e))

  unfoldable pub null_as_signal : Signal O V E
  unfolding result_signal
  null_as_signal = result_signal none

  -- `schedule_connection`: `execute` calls the functor, `cancel` gives null.
  pub schedule_execute : Slot O V E → Result V E → Act O
  schedule_execute slot (ok v) = slot (value v)
  schedule_execute slot (err e) = slot (error e)

  pub schedule : ℕ → (Unit {0} → Result V E) → Signal O V E
  unfolding schedule_execute
  schedule ex f = record {
    get_executor = 0;
    connect = λ slot.
        scheduled ex (λ executed. if executed then schedule_execute slot (f tt) else slot null);
  }

  unfoldable pub continue_on : ℕ → Signal O V E → Signal O V E
  continue_on ex signal = record { get_executor = ex; connect = signal.connect }

  -- `box_slot` and `box_connection`: the completion goes through `slot_callback::set_result`.
  pub box_slot : (Option (Result V E) → Act O) → Slot O V E
  box_slot set_result (value v) = set_result (some (ok v))
  box_slot set_result (error e) = set_result (some (err e))
  box_slot set_result null = set_result none

  pub box : Signal O V E → Signal O V E
  unfolding box_slot
  box signal = record {
    get_executor = signal.get_executor;
    connect = λ slot. signal.connect (box_slot (λ maybe_result. slot (fulfill_slot maybe_result)));
  }

abbrev pub start_on : {O E : Type 0} → ℕ → Signal O (Unit {0}) E
start_on ex = continue_on ex (value_as_signal tt)

-- `map_slot`, with what its task does.
module _ {O V W E : Type 0} where
  pub map_execute : (V → W) → Slot O W E → Option V → Act O
  map_execute functor slot none = lost
  map_execute functor slot (some v) = slot (value (functor v))

  pub map_slot : (V → W) → ℕ → Slot O W E → Slot O V E
  unfolding map_execute
  map_slot functor ex slot (value v) =
      scheduled ex (λ executed. if executed then map_execute functor slot (some v) else slot null)
  map_slot functor ex slot (error e) = slot (error e)
  map_slot functor ex slot null = slot null

  unfoldable pub map : (V → W) → Signal O V E → Signal O W E
  unfolding map_slot
  map functor signal = record {
    get_executor = signal.get_executor;
    connect = λ slot. signal.connect (map_slot functor signal.get_executor slot);
  }

  pub and_then_execute : (V → Result W E) → Slot O W E → Option V → Act O
  unfolding schedule_execute
  and_then_execute functor slot none = lost
  and_then_execute functor slot (some v) = schedule_execute slot (functor v)

  pub and_then_slot : (V → Result W E) → ℕ → Slot O W E → Slot O V E
  unfolding and_then_execute
  and_then_slot functor ex slot (value v) =
      scheduled ex
        (λ executed. if executed then and_then_execute functor slot (some v) else slot null)
  and_then_slot functor ex slot (error e) = slot (error e)
  and_then_slot functor ex slot null = slot null

  unfoldable pub and_then : (V → Result W E) → Signal O V E → Signal O W E
  unfolding and_then_slot
  and_then functor signal = record {
    get_executor = signal.get_executor;
    connect = λ slot. signal.connect (and_then_slot functor signal.get_executor slot);
  }

module _ {O V D E : Type 0} where
  pub map_error_execute : (D → E) → Slot O V E → Option D → Act O
  map_error_execute functor slot none = lost
  map_error_execute functor slot (some e) = slot (error (functor e))

  pub map_error_slot : (D → E) → ℕ → Slot O V E → Slot O V D
  unfolding map_error_execute
  map_error_slot functor ex slot (value v) = slot (value v)
  map_error_slot functor ex slot (error e) =
      scheduled ex
        (λ executed. if executed then map_error_execute functor slot (some e) else slot null)
  map_error_slot functor ex slot null = slot null

  pub map_error : (D → E) → Signal O V D → Signal O V E
  unfolding map_error_slot
  map_error functor signal = record {
    get_executor = signal.get_executor;
    connect = λ slot. signal.connect (map_error_slot functor signal.get_executor slot);
  }

  pub or_else_execute : (D → Result V E) → Slot O V E → Option D → Act O
  unfolding schedule_execute
  or_else_execute functor slot none = lost
  or_else_execute functor slot (some e) = schedule_execute slot (functor e)

  pub or_else_slot : (D → Result V E) → ℕ → Slot O V E → Slot O V D
  unfolding or_else_execute
  or_else_slot functor ex slot (value v) = slot (value v)
  or_else_slot functor ex slot (error e) =
      scheduled ex
        (λ executed. if executed then or_else_execute functor slot (some e) else slot null)
  or_else_slot functor ex slot null = slot null

  pub or_else : (D → Result V E) → Signal O V D → Signal O V E
  unfolding or_else_slot
  or_else functor signal = record {
    get_executor = signal.get_executor;
    connect = λ slot. signal.connect (or_else_slot functor signal.get_executor slot);
  }

module _ {O V E : Type 0} where
  -- `flatten_slot` subscribes its own slot to the signal that it is given, and emits.
  pub flatten_slot : Slot O V E → Slot O (Signal O V E) E
  flatten_slot slot (value inner) = inner.connect slot
  flatten_slot slot (error e) = slot (error e)
  flatten_slot slot null = slot null

  unfoldable pub flatten : Signal O (Signal O V E) E → Signal O V E
  unfolding flatten_slot
  flatten signal = record {
    get_executor = signal.get_executor;
    connect = λ slot. signal.connect (flatten_slot slot);
  }

  pub query_executor_slot : ℕ → Slot O (V × ℕ) (E × ℕ) → Slot O V E
  query_executor_slot ex slot (value v) = slot (value (v, ex))
  query_executor_slot ex slot (error e) = slot (error (e, ex))
  query_executor_slot ex slot null = slot null

  pub query_executor : Signal O V E → Signal O (V × ℕ) (E × ℕ)
  unfolding query_executor_slot
  query_executor signal = record {
    get_executor = signal.get_executor;
    connect = λ slot. signal.connect (query_executor_slot signal.get_executor slot);
  }

-- `get_slot`: the result that is there when the event is set.
abbrev pub get_slot : {V E : Type 0} → Slot (Option (Result V E)) V E
get_slot (value v) = done (some (ok v))
get_slot (error e) = done (some (err e))
get_slot null = done none

-- `get_emit`, up to `event.wait()`.
unfoldable pub get : {V E : Type 0} → Signal (Option (Result V E)) V E → Act (Option (Result V E))
get signal = signal.connect get_slot
