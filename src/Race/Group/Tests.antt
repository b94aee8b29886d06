-- ===== src/Race/Group/Tests.antt =====
-- A group of two connections of include/sl/exec/algo/sync/detail/parallel.hpp, in which the first wins.
use serious_execution_librar.Prelude.{
  ℕ, ◌<◌, ◌≤◌, ◌≡◌, refl, Bool, Option, [], ◌∷◌, arith, length, ltb,
}
use serious_execution_librar.Race.{finished, init, lead, settle, count, trail}
use serious_execution_librar.Race.Protocol
use serious_execution_librar.Parallel.{initial, execute_all, try_cancel, delete_this}
use serious_execution_librar.Race.Group.{
  Group, initial_group, emit_impl, handle, handles, emits, Reach, start, later,
}
use serious_execution_librar.Race.Group.Effects.{expected, group_lem}

-- Positive completions try to win.
abbrev leads : ℕ → Bool
leads x = ltb 0 x

abbrev out : ℕ → ℕ → ℕ
out i x = x

abbrev ending : (ℕ → Option ℕ) → ℕ → ℕ
ending inputs x = x

run :
    (g : Group ℕ ℕ) × Reach leads out ending 2 g
    × ((execute_all 2 g.tasks initial).effects ≡ try_cancel 1 ∷ delete_this ∷ [])
unfolding init lead settle count trail initial_group handle emit_impl execute_all initial
run = (
  _,
  later
      (later
        (later
          (later (later start (handles (Protocol.Step.leading 0 5 (omega arith) refl refl)))
            (handles (Protocol.Step.counts 0 (omega arith) refl)))
          (emits refl))
        (handles (Protocol.Step.trailing 1 0 (omega arith) refl refl)))
      (handles (Protocol.Step.settles 1 0 (omega arith) refl)),
  refl,
)

group_lem_example :
    ((execute_all 2 run.0.tasks initial).effects ≡ expected 2 run.0)
    × (length run.0.race.cancels ≤ 1)
    × (run.0.race.deletes ≤ 1)
    × (0 < run.0.race.deletes → (i : ℕ) → i < 2 → run.0.race.pcs i ≡ finished)
group_lem_example = group_lem leads out ending 2 (omega arith) (omega arith) run.1
