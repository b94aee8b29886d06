-- ===== src/Arc/Tests.antt =====
-- Tests and examples for Arc: a value made with one handle, copied, moved and dropped.
use serious_execution_librar.Prelude.{ℕ, ◌<◌, ◌≡◌, ◌≢◌, ◌⊎◌, refl, arith}
use serious_execution_librar.Arc.{
  holding, Arc, incref, decref, make_n, copy, move, destroy, copies, moves, destroys, destroys_null,
  Reach, start, later,
}
use serious_execution_librar.Arc.Lifetime.{arc_lem}

-- Handle 1 is a copy of handle 0, which is moved into handle 2.
abbrev copied : Arc
copied = copy 0 1 (make_n 1)

abbrev moved : Arc
moved = move 0 2 copied

abbrev dropped : Arc
dropped = destroy 0 (destroy 2 (destroy 1 moved))

run : Reach 3 1 dropped
unfolding copy move destroy incref decref make_n
run =
    later
      (later
        (later
          (later (later start (copies 0 1 (omega arith) (omega arith) refl refl (omega arith)))
            (moves 0 2 (omega arith) (omega arith) refl refl))
          (destroys 1 (omega arith) refl))
        (destroys 2 (omega arith) refl))
      (destroys_null 0 (omega arith) refl)

deleted_once : dropped.deletes ≡ 1
unfolding copy move destroy incref decref make_n
deleted_once = refl

kept : (copied.deletes ≡ 0)
unfolding copy move destroy incref decref make_n
kept = refl

-- `make_n<0>` allocates a storage that no handle holds: it is never deleted.
leaked : (make_n 0).deletes ≡ 0
unfolding make_n
leaked = refl

arc_lem_example :
    ((dropped.deletes ≡ 0) × ((i : ℕ) × (i < 3) × (dropped.handles i ≡ holding)))
    ⊎ ((dropped.deletes ≡ 1) × ((i : ℕ) → i < 3 → dropped.handles i ≢ holding))
arc_lem_example = arc_lem 3 (omega arith) (omega arith) (omega arith) run
