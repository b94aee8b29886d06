-- ===== src/Arc.antt =====
-- include/sl/exec/thread/detail/arc.hpp: the storage of a shared value and the handles that hold it. A step
-- is one access of the reference count.
pub mod Lifetime
mod Tests
use serious_execution_librar.Prelude.{ℕ, ◌+◌, ◌-◌, ◌%◌, ◌<◌, ◌≡◌, ◌==◌, if◌then◌else◌, ltb, update}

-- An `arc`: not constructed yet, with a `storage_`, with null after a move, or destroyed.
pub data Handle : Type 0 where
  unborn holding moved_from destroyed : Handle

-- `deletes` counts `delete this`.
pub record Arc : Type 0 where
  pub refcount : ℕ
  pub handles : ℕ → Handle
  pub deletes : ℕ

-- `std::uint32_t`.
abbrev pub u32 : ℕ → ℕ
u32 x = x % 4294967296

pub incref : Arc → Arc
incref s = record s { refcount = u32 (s.refcount + 1) }

pub decref : Arc → Arc
decref s = record s {
  refcount = u32 (s.refcount + 4294967296 - 1);
  deletes = if s.refcount == 1 then s.deletes + 1 else s.deletes;
}

abbrev set_handle : ℕ → Handle → Arc → Arc
set_handle i h s = record s { handles = update s.handles i h }

-- `make_n`; `make` is the case of one handle.
pub make_n : ℕ → Arc
make_n count = record {
  refcount = count;
  handles = λ i. if ltb i count then holding else unborn;
  deletes = 0;
}

-- The copy constructor, of which `j` is the new handle.
pub copy : ℕ → ℕ → Arc → Arc
unfolding incref
copy i j s = set_handle j holding (incref s)

-- The move constructor.
pub move : ℕ → ℕ → Arc → Arc
move i j s = set_handle j holding (set_handle i moved_from s)

-- The destructor, of a handle that holds the storage or null.
pub destroy : ℕ → Arc → Arc
unfolding decref
destroy i s = elim (s.handles i) [
  | holding ↦ decref (set_handle i destroyed s)
  | _ ↦ set_handle i destroyed s
]

-- At most `n` handles are ever made, fewer than 2 ^ 32 at a time.
pub data Step (n : ℕ) (s : Arc) : Arc → Type 0 where
  copies :
      (i j : ℕ)
      → i < n
      → j < n
      → s.handles i ≡ holding
      → s.handles j ≡ unborn
      → s.refcount + 1 < 4294967296
      → Step n s (copy i j s)
  moves :
      (i j : ℕ)
      → i < n
      → j < n
      → s.handles i ≡ holding
      → s.handles j ≡ unborn
      → Step n s (move i j s)
  destroys : (i : ℕ) → i < n → s.handles i ≡ holding → Step n s (destroy i s)
  destroys_null : (i : ℕ) → i < n → s.handles i ≡ moved_from → Step n s (destroy i s)

pub data Reach (n count : ℕ) : Arc → Type 0 where
  start : Reach n count (make_n count)
  later : {s t : Arc} → Reach n count s → Step n s t → Reach n count t
