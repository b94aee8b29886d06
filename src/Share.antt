-- ===== src/Share.antt =====
-- include/sl/exec/algo/emit/share.hpp, `share_storage_base` with the boxes, signals and connections that
-- hold it, and include/sl/exec/algo/tf/par/fork.hpp, which makes the signals. A step is one deciding
-- access of the word or of the reference count; a compare-exchange that fails changes nothing.
pub mod Invariant
pub mod Lifetime
mod Tests
use serious_execution_librar.Prelude.{
  ℕ, zero, suc, ◌+◌, ◌-◌, ◌%◌, ◌^◌, ◌<◌, ◌≡◌, Bool, true, false, Option, none, some, List, [], ◌∷◌,
  ◌++◌, ◌==◌, if◌then◌else◌, update,
}
use serious_execution_librar.Slot.{Result}

-- `state_`: empty, the chain of callbacks with the newest first, or the mark of a result.
pub data Word : Type 0 where
  state_empty : Word
  callbacks : List ℕ → Word
  state_result : Word

-- A `share_signal` and the `share_connection` that it becomes. `linked` and `called` are those whose
-- callback went into the chain, `to_copy` and `to_release` those that found the result: before their
-- callback, and before their `decref`. `dropped` is a destruction without emission.
pub data Phase : Type 0 where
  unborn holding linked called to_copy to_release released dropped : Phase

-- The inner signal and `set_result`: not emitted, before the assignment, before the exchange, among the
-- callbacks with those left and `callback_count`, returned.
pub data Producer : Type 0 where
  idle to_store to_exchange : Producer
  notifying : List ℕ → ℕ → Producer
  produced : Producer

-- `has_box` says whether the `share_box` lives. `calls` are the calls of callbacks, and `deletes` counts
-- `delete this`.
pub record Share (V E : Type 0) : Type 0 where
  pub maybe_result : Option (Result V E)
  pub refcount : ℕ
  pub state : Word
  pub has_box : Bool
  pub phases : ℕ → Phase
  pub producer : Producer
  pub calls : List (ℕ × Option (Result V E))
  pub deletes : ℕ

abbrev pub u32 : ℕ → ℕ
u32 x = x % 4294967296

module _ {V E : Type 0} where
  -- `share_box` of a signal.
  pub new_box : Share V E
  new_box = record {
    maybe_result = none;
    refcount = 1;
    state = state_empty;
    has_box = true;
    phases = λ i. unborn;
    producer = idle;
    calls = [];
    deletes = 0;
  }

  pub incref : Share V E → Share V E
  incref s = record s { refcount = u32 (s.refcount + 1) }

  pub decref : ℕ → Share V E → Share V E
  decref diff s = record s {
    refcount = u32 (s.refcount + 4294967296 - diff);
    deletes = if s.refcount == diff then s.deletes + 1 else s.deletes;
  }

  abbrev move : ℕ → Phase → Share V E → Share V E
  move i p s = record s { phases = update s.phases i p }

  abbrev call : ℕ → Share V E → Share V E
  call i s = record s { calls = s.calls ++ (i, s.maybe_result) ∷ [] }

  -- `share_box::get_signal`.
  pub get_signal : ℕ → Share V E → Share V E
  unfolding incref
  get_signal i s = move i holding (incref s)

  -- A signal or connection that is destroyed without emission, and the box.
  pub drop : ℕ → Share V E → Share V E
  unfolding decref
  drop i s = decref 1 (move i dropped s)

  pub drop_box : Share V E → Share V E
  unfolding decref
  drop_box s = decref 1 (record s { has_box = false })

  -- `emit` up to the access that decides it.
  pub emit : ℕ → Share V E → Share V E
  emit i s = elim s.state [
    | state_empty ↦ record (move i linked s) { state = callbacks (i ∷ []); producer = to_store }
    | callbacks l ↦ record (move i linked s) { state = callbacks (i ∷ l) }
    | state_result ↦ move i to_copy s
  ]

  -- The end of `emit` when it found the result.
  pub copy : ℕ → Share V E → Share V E
  copy i s = call i (move i to_release s)

  pub release : ℕ → Share V E → Share V E
  unfolding decref
  release i s = decref 1 (move i released s)

  -- `set_result`.
  pub store : Option (Result V E) → Share V E → Share V E
  store result s = record s { maybe_result = result; producer = to_exchange }

  pub exchange : Share V E → Share V E
  exchange s =
      let t : Share V E = record s { state = state_result } in
      elim s.state [
        | state_empty ↦ record t { producer = produced }
        | callbacks l ↦ record t { producer = notifying l 0 }
        | state_result ↦ record t { producer = produced }
      ]

  -- The body of the `for_each`, for the next callback, and what follows the loop.
  pub notify : ℕ → List ℕ → ℕ → Share V E → Share V E
  notify i rest count s = record (call i (move i called s)) {
    producer = notifying rest (count + 1);
  }

  pub finish : ℕ → Share V E → Share V E
  unfolding decref
  finish count s = decref count (record s { producer = produced })

  -- `n` signals at most are made, each is emitted or destroyed once, and the inner signal completes
  -- once, with `result`. The references stay below 2 ^ 32.
  pub data Step (n : ℕ) (result : Option (Result V E)) (s : Share V E) : Share V E → Type 0 where
    gets :
        (i : ℕ)
        → i < n
        → s.has_box ≡ true
        → s.phases i ≡ unborn
        → s.refcount + 1 < 4294967296
        → Step n result s (get_signal i s)
    drops : (i : ℕ) → i < n → s.phases i ≡ holding → Step n result s (drop i s)
    drops_box : s.has_box ≡ true → Step n result s (drop_box s)
    emits : (i : ℕ) → i < n → s.phases i ≡ holding → Step n result s (emit i s)
    copies : (i : ℕ) → i < n → s.phases i ≡ to_copy → Step n result s (copy i s)
    releases : (i : ℕ) → i < n → s.phases i ≡ to_release → Step n result s (release i s)
    stores : s.producer ≡ to_store → Step n result s (store result s)
    exchanges : s.producer ≡ to_exchange → Step n result s (exchange s)
    notifies :
        (i : ℕ) (rest : List ℕ) (count : ℕ)
        → s.producer ≡ notifying (i ∷ rest) count
        → Step n result s (notify i rest count s)
    finishes : (count : ℕ) → s.producer ≡ notifying [] count → Step n result s (finish count s)

  pub data Reach (n : ℕ) (result : Option (Result V E)) : Share V E → Type 0 where
    start : Reach n result new_box
    later : {s t : Share V E} → Reach n result s → Step n result s t → Reach n result t
