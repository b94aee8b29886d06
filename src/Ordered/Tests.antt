-- ===== src/Ordered/Tests.antt =====
-- A sorted emission of include/sl/exec/algo/sync/detail/parallel.hpp, with an insertion sort.
use serious_execution_librar.Prelude.{
  ℕ, ◌≡◌, Option, none, some, ltb, bit, count, if◌then◌else◌, map, ◌==◌,
}
use serious_execution_librar.Ordered.{get_connection_ordering, emit_in_order}
use serious_execution_librar.Ordered.Insertion.{sort, rearranges, sorts}
use serious_execution_librar.Ordered.Emission.{Ascending, emit_in_order_lem}

-- The middle connection is not ordered.
abbrev connections : ℕ → Option ℕ
connections i = if i == 0 then some 30 else if i == 1 then none else some 20

emit_in_order_lem_example :
    ((i : ℕ) → count i (emit_in_order sort connections 3).emissions ≡ bit (ltb i 3))
    × Ascending (
        map
          (λ i. get_connection_ordering (connections i))
          (emit_in_order sort connections 3).emissions)
    × ((i : ℕ)
        → (emit_in_order sort connections 3).maybe_result i ≡ (if ltb i 3 then some i else none))
emit_in_order_lem_example = emit_in_order_lem sort connections rearranges sorts 3
