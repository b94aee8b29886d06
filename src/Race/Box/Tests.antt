-- ===== src/Race/Box/Tests.antt =====
-- A box of include/sl/exec/algo/tf/par/any.hpp that is emitted, and one that is dropped.
use serious_execution_librar.Prelude.{
  ℕ, ◌+◌, ◌<◌, ◌≤◌, ◌≡◌, refl, Bool, true, false, Option, arith, bit, ltb,
}
use serious_execution_librar.Parallel.{initial, execute_all}
use serious_execution_librar.Race.{finished, init, lead, count}
use serious_execution_librar.Race.Protocol
use serious_execution_librar.Race.Group.{initial_group, emit_impl, handle, handles, emits}
use serious_execution_librar.Race.Box.{
  Box, subscribe, release, destroy, Life, subscribed, emitted, moves, destroys,
}
use serious_execution_librar.Race.Box.Ownership.{deletions, is_gone, box_lem}

abbrev leads : ℕ → Bool
leads x = ltb 0 x

abbrev out : ℕ → ℕ → ℕ
out i x = x

abbrev ending : (ℕ → Option ℕ) → ℕ → ℕ
ending inputs x = x

-- One connection, which wins.
run :
    (b : Box ℕ ℕ) × Life leads out ending 1 true b
    × (deletions (execute_all 1 b.group.tasks initial).effects ≡ 1)
unfolding init lead count initial_group handle emit_impl subscribe release destroy execute_all
    initial
run = (
  _,
  moves
      (moves
        (moves (destroys (emitted subscribed refl) (λ h. cc))
          (handles (Protocol.Step.leading 0 5 (omega arith) refl refl)))
        (emits refl))
      (handles (Protocol.Step.counts 0 (omega arith) refl)),
  refl,
)

dropped : (destroy (subscribe {I = ℕ} {O = ℕ})).deletes ≡ 1
unfolding destroy subscribe
dropped = refl

box_lem_example :
    (true ≡ false
      → run.0.deletes + deletions (execute_all 1 run.0.group.tasks initial).effects
        ≡ bit (is_gone run.0.connection))
    × (true ≡ true
        → (run.0.deletes ≡ 0)
          × (deletions (execute_all 1 run.0.group.tasks initial).effects ≤ 1)
          × (run.0.group.emitted ≡ true
              → ((i : ℕ) → i < 1 → run.0.group.race.pcs i ≡ finished)
              → deletions (execute_all 1 run.0.group.tasks initial).effects ≡ 1))
box_lem_example = box_lem leads out ending 1 (omega arith) (omega arith) run.1
