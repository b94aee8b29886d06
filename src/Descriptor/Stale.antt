-- ===== src/Descriptor/Stale.antt =====
-- Reading a descriptor of include/sl/exec/thread/detail/multiword.hpp while its owner uses it again.
use serious_execution_librar.Prelude.{ℕ, ◌+◌, ◌*◌, ◌%◌, ◌<◌, ◌≤◌, ◌≡◌, ◌≢◌, none, some}
use serious_execution_librar.Words.{half}
use serious_execution_librar.Descriptor.{
  Owner, outside, marked, written, Reader, to_validate, to_copy, copied, returned, Descriptor,
}

-- The sequence that the owner has stored last.
abbrev current : Owner → ℕ → ℕ
current outside created = 2 * created
current marked created = 2 * created + 1
current written created = 2 * created + 1

-- A pointer to descriptor `k` has sequence `2 * k + 2`.
module _ {I : Type 0} (k : ℕ) where
  -- What the reader holds is right as long as the descriptor was not used again.
  abbrev Held : Reader I → Descriptor I → Type 0
  Held to_validate s = Unit {0}
  Held to_copy s = 2 * k + 2 ≤ current s.owner s.created
  Held (copied x) s =
      (2 * k + 2 ≤ current s.owner s.created)
      × (current s.owner s.created ≡ 2 * k + 2 → x ≡ s.history k)
  Held (returned none) s = Unit {0}
  Held (returned (some x)) s = (k < s.created) × (x ≡ s.history k)

  record Inv (s : Descriptor I) : Type 0 where
    sequence : s.state % half ≡ current s.owner s.created
    bounded : 2 * s.created < half
    room : s.owner ≢ outside → 2 * s.created + 2 < half
    last : s.owner ≡ outside → (j : ℕ) → j + 1 ≡ s.created → s.immutables ≡ s.history j
    pending : s.owner ≡ written → s.immutables ≡ s.history s.created
    held : Held s.reader s
