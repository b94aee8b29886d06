-- ===== src/Descriptor.antt =====
-- include/sl/exec/thread/detail/multiword.hpp, the descriptor of one thread: `create_new` by its owner and
-- `read_immutables` by another thread, one access of the descriptor per step, in any interleaving.
pub mod Stale
mod Tests
use serious_execution_librar.Prelude.{
  ℕ, ◌+◌, ◌*◌, ◌<◌, ◌≡◌, ◌==◌, Option, none, some, if◌then◌else◌, update,
}
use serious_execution_librar.Words.{half, sequence_inc, extract_state, combine_state}

-- Where `create_new` stands: outside, after the store of an odd sequence, after the immutables.
pub data Owner : Type 0 where
  outside marked written : Owner

-- Where `read_immutables` stands: before its first load, after it, after the copy; and what it returned,
-- `none` for bottom.
pub data Reader (I : Type 0) : Type 0 where
  to_validate : Reader I
  to_copy : Reader I
  copied : I → Reader I
  returned : Option I → Reader I

-- The descriptor's `state` and `immutables`, the two threads, and what happened: the number of
-- descriptors created, and the immutables of each.
pub record Descriptor (I : Type 0) : Type 0 where
  pub state : ℕ
  pub immutables : I
  pub owner : Owner
  pub reader : Reader I
  pub created : ℕ
  pub history : ℕ → I

module _ {I : Type 0} where
  pub init : I → Descriptor I
  init x = record {
    state = 0;
    immutables = x;
    owner = outside;
    reader = to_validate;
    created = 0;
    history = λ k. x;
  }

  -- `create_new`: the store of `oldseq + 1`, the immutables, and the store of `oldseq + 2`.
  pub mark : Descriptor I → Descriptor I
  mark s =
      let (old_mutables, old_sequence) = extract_state s.state in
      record s { state = combine_state old_mutables (sequence_inc old_sequence); owner = marked }

  pub write : I → Descriptor I → Descriptor I
  write x s = record s { immutables = x; owner = written; history = update s.history s.created x }

  -- The code keeps `old_sequence_1` in a local variable, which is what the state holds.
  pub publish : ℕ → Descriptor I → Descriptor I
  publish mutables s =
      let (old_mutables, old_sequence_1) = extract_state s.state in
      record s {
        state = combine_state mutables (sequence_inc old_sequence_1);
        owner = outside;
        created = s.created + 1;
      }

  -- `read_immutables` for a pointer with a sequence.
  pub validate : ℕ → Descriptor I → Descriptor I
  validate sequence s =
      let (mutables, state_sequence) = extract_state s.state in
      record s { reader = if sequence == state_sequence then to_copy else returned none }

  pub copy : Descriptor I → Descriptor I
  copy s = record s { reader = copied s.immutables }

  pub validate_again : ℕ → I → Descriptor I → Descriptor I
  validate_again sequence result s =
      let (mutables, state_sequence) = extract_state s.state in
      record s {
        reader = if sequence == state_sequence then returned (some result) else returned none;
      }

  -- Fewer than 2 ^ 31 descriptors are created, so that sequences do not repeat.
  pub data Step (sequence : ℕ) (s : Descriptor I) : Descriptor I → Type 0 where
    marks : s.owner ≡ outside → 2 * s.created + 2 < half → Step sequence s (mark s)
    writes : (x : I) → s.owner ≡ marked → Step sequence s (write x s)
    publishes : (mutables : ℕ) → s.owner ≡ written → Step sequence s (publish mutables s)
    validates : s.reader ≡ to_validate → Step sequence s (validate sequence s)
    copies : s.reader ≡ to_copy → Step sequence s (copy s)
    validates_again : (x : I) → s.reader ≡ copied x → Step sequence s (validate_again sequence x s)

  pub data Reach (x : I) (sequence : ℕ) : Descriptor I → Type 0 where
    start : Reach x sequence (init x)
    later : {s t : Descriptor I} → Reach x sequence s → Step sequence s t → Reach x sequence t
