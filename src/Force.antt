-- ===== src/Force.antt =====
-- include/sl/exec/algo/emit/force.hpp, `force_storage`: the result of a signal that was emitted at once
-- meets the slot that is subscribed later. A step is one access of the shared word, and the thread that
-- completes and the thread that subscribes interleave in any order.
pub mod Handover
mod Tests
use serious_execution_librar.Prelude.{ℕ, ◌+◌, ◌≡◌, Option, none, some, List, [], ◌∷◌, ◌++◌}
use serious_execution_librar.Slot.{Result}

-- `state_`: empty, the address of a callback, or the mark of a result.
pub data Word : Type 0 where
  state_empty callback state_result : Word

-- Where `set_result` stands: before its assignment, before its exchange, returned.
pub data Producer : Type 0 where
  to_store to_exchange produced : Producer

-- Where `set_slot_callback` stands: before its load, before its exchange, before it completes the
-- callback itself, returned.
pub data Consumer : Type 0 where
  to_load to_swap to_take consumed : Consumer

-- `calls` are the completions of the callback, and `deletes` counts `delete this`.
pub record Force (V E : Type 0) : Type 0 where
  pub maybe_result : Option (Result V E)
  pub state : Word
  pub producer : Producer
  pub consumer : Consumer
  pub calls : List (Option (Result V E))
  pub deletes : ℕ

module _ {V E : Type 0} where
  pub init : Force V E
  init = record {
    maybe_result = none;
    state = state_empty;
    producer = to_store;
    consumer = to_load;
    calls = [];
    deletes = 0;
  }

  -- The callback gets what `maybe_result_` holds, and the storage is deleted.
  pub complete : Force V E → Force V E
  complete s = record s { calls = s.calls ++ s.maybe_result ∷ []; deletes = s.deletes + 1 }

  -- `set_result`.
  pub store : Option (Result V E) → Force V E → Force V E
  store result s = record s { maybe_result = result; producer = to_exchange }

  pub exchange : Force V E → Force V E
  unfolding complete
  exchange s =
      let t : Force V E = record s { state = state_result; producer = produced } in
      elim s.state [ state_empty ↦ t | callback ↦ complete t | state_result ↦ complete t ]

  -- `set_slot_callback`: the load, the exchange if the word was empty, and the end if it was not.
  pub load : Force V E → Force V E
  load s = elim s.state [
    | state_empty ↦ record s { consumer = to_swap }
    | callback ↦ record s { consumer = to_take }
    | state_result ↦ record s { consumer = to_take }
  ]

  pub swap : Force V E → Force V E
  swap s = elim s.state [
    | state_empty ↦ record s { state = callback; consumer = consumed }
    | callback ↦ record s { consumer = to_take }
    | state_result ↦ record s { consumer = to_take }
  ]

  pub take : Force V E → Force V E
  unfolding complete
  take s = complete (record s { consumer = consumed })

  -- The signal completes once, with `result`, and one slot is connected.
  pub data Step (result : Option (Result V E)) (s : Force V E) : Force V E → Type 0 where
    stores : s.producer ≡ to_store → Step result s (store result s)
    exchanges : s.producer ≡ to_exchange → Step result s (exchange s)
    loads : s.consumer ≡ to_load → Step result s (load s)
    swaps : s.consumer ≡ to_swap → Step result s (swap s)
    takes : s.consumer ≡ to_take → Step result s (take s)

  pub data Reach (result : Option (Result V E)) : Force V E → Type 0 where
    start : Reach result init
    later : {s t : Force V E} → Reach result s → Step result s t → Reach result t
