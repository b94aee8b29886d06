-- ===== src/Ordered.antt =====
-- include/sl/exec/algo/sync/detail/parallel.hpp, `emit_in_order`, and `get_connection_ordering` of
-- include/sl/exec/model/connection.hpp: connections are emitted in the order of their orderings.
pub mod Emission
pub mod Insertion
mod Tests
use serious_execution_librar.Prelude.{ℕ, zero, suc, Option, none, some, List, [], ◌∷◌, ◌++◌, update}

-- `std::numeric_limits<std::uintptr_t>::max()` on a 64-bit system.
abbrev pub max_ordering : ℕ
max_ordering = 18446744073709551615

-- What `get_ordering` returns, if the connection is `Ordered`.
unfoldable pub get_connection_ordering : Option ℕ → ℕ
get_connection_ordering none = max_ordering
get_connection_ordering (some ordering) = ordering

-- The connections emitted so far, in order, and `maybe_result`: the handle at each index, named by the
-- connection that gave it.
pub record Emitted : Type 0 where
  pub emissions : List ℕ
  pub maybe_result : ℕ → Option ℕ

-- `connections` are the orderings of the connections, and `std::stable_sort` by the first of each pair
-- comes from outside.
module _ (stable_sort : List (ℕ × ℕ) → List (ℕ × ℕ)) (connections : ℕ → Option ℕ) where
  -- The array of pairs, for indices below `n`.
  pub orderings : ℕ → List (ℕ × ℕ)
  unfolding get_connection_ordering
  orderings zero = []
  orderings (suc n) = orderings n ++ (get_connection_ordering (connections n), n) ∷ []

  -- The body of the loop: the connection with this index is emitted, and its handle put at the index.
  pub emit_one : ℕ → Emitted → Emitted
  emit_one idx s = record {
    emissions = s.emissions ++ idx ∷ [];
    maybe_result = update s.maybe_result idx (some idx);
  }

  pub emit_each : List (ℕ × ℕ) → Emitted → Emitted
  unfolding emit_one
  emit_each [] s = s
  emit_each ((ordering, idx) ∷ rest) s = emit_each rest (emit_one idx s)

  unfoldable pub emit_in_order : ℕ → Emitted
  unfolding emit_each orderings
  emit_in_order n =
      emit_each (stable_sort (orderings n)) (record { emissions = []; maybe_result = λ i. none })
