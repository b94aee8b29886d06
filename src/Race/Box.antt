-- ===== src/Race/Box.antt =====
-- The connection that `any`, `all` and `select` allocate when a slot is subscribed (the boxes of
-- include/sl/exec/algo/tf/par/any.hpp, all.hpp and include/sl/exec/algo/sync/select.hpp), from there to
-- its deletion by the box or by the tasks of its group.
pub mod Ownership
mod Tests
use serious_execution_librar.Prelude.{
  ℕ, ◌<◌, ◌≤◌, ◌≡◌, ◌≢◌, ◌+◌, Bool, true, false, Option, none, some,
}
use serious_execution_librar.Race.Group.{Group, initial_group, Step}

-- A `std::unique_ptr`, which holds the connection, is null, or was destroyed.
pub data Pointer : Type 0 where
  owns null_pointer gone : Pointer

-- `deletes` counts the deletions by the box. The group lives in the connection; its own deletion is an
-- effect of its tasks.
pub record Box (I O : Type 0) : Type 0 where
  pub connection : Pointer
  pub group : Group I O
  pub deletes : ℕ

module _ {I O : Type 0} where
  -- `subscribe`, with the constructor of the box.
  pub subscribe : Box I O
  subscribe = record { connection = owns; group = initial_group; deletes = 0 }

  -- `connection_.release()` in `emit`, with its assertion: none where it fails. The connections of the group are emitted from then
  -- on.
  pub release : Box I O → Option (Box I O)
  release b = elim b.connection [ owns ↦ some (record b { connection = null_pointer }) | _ ↦ none ]

  -- The destructor.
  pub destroy : Box I O → Box I O
  destroy b = elim b.connection [
    | owns ↦ record b { connection = gone; deletes = b.deletes + 1 }
    | _ ↦ record b { connection = gone }
  ]

module _ {I O : Type 0} (leads : I → Bool) (out : ℕ → I → O) (ending : (ℕ → Option I) → I → O)
    (n : ℕ) where
  -- The box is emitted at most once and destroyed, and the group moves only after an emission.
  pub data Life : Bool → Box I O → Type 0 where
    subscribed : Life false subscribe
    emitted : {b c : Box I O} → Life false b → release b ≡ some c → Life true c
    moves :
        {b : Box I O} {g : Group I O}
        → Life true b
        → Step leads out ending n b.group g
        → Life true (record b { group = g })
    destroys : {e : Bool} {b : Box I O} → Life e b → b.connection ≢ gone → Life e (destroy b)
