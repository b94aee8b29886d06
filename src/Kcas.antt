-- ===== src/Kcas.antt =====
-- include/sl/exec/thread/detail/multiword_kcas.hpp and src/thread/detail/multiword_kcas.cpp, as one thread
-- runs them, from a state that other threads may have left in the middle of theirs.
pub mod Marking
pub mod Marked
pub mod Replacing
pub mod Helping
pub mod Reading
mod Tests
pub use serious_execution_librar.Dcss.{
  Pointer, Word, value, dcss_flagged, kcas_flagged, State, state_undecided, state_succeded,
  state_failed, KcasArg, KcasDescriptor, Load, is_undecided, Dcss, DcssDescriptor, Memory,
  Pointer_eq, Word_eq, Thread, Reliable,
}
unfoldable pub use serious_execution_librar.Dcss.{
  compare_exchange, compare_exchange_weak, read_state, read_args, cas_state, a1_is_e1, dcss_help,
  dcss_create_new, dcss_loop, dcss, dcss_read,
}
use serious_execution_librar.Prelude.{
  ℕ, zero, suc, ◌+◌, Bool, true, false, Option, none, some, List, ◌==◌, if◌then◌else◌, update,
  get_elem?,
}
use serious_execution_librar.Words.{sequence_inc}

-- How a loop of `kcas_help` ends: by itself, at bottom, or out of fuel.
pub data Ended (A : Type 0) : Type 0 where
  finished : A → Ended A
  bottom out_of_fuel : Ended A

-- A round of such a loop: it ends it, or goes on at an index.
pub data Round (A : Type 0) : Type 0 where
  ends : Ended A → Memory → Round A
  goes : ℕ → Memory → Round A

-- The thread that runs is `me`.
module _ (me : Thread) where
  -- A round of the loop of `kcas_help` that marks the words, at the index `i`. `help` is its call of
  -- itself.
  pub mark_round : (Pointer → Memory → Memory) → ℕ → Pointer → ℕ → Memory → Round State
  unfolding read_args
  mark_round help fuel des i m = elim (read_args des m) [
    | none ↦ ends bottom m
    | some args ↦ elim (get_elem? args i) [
      | none ↦ ends (finished state_succeded) m
      | some arg ↦
          let d : Dcss = record {
            a1 = is_undecided des;
            a2 = arg.a;
            e2 = value arg.e;
            n2 = kcas_flagged des;
          } in
          let after : Memory = (dcss me fuel d m).1 in
          elim (dcss me fuel d m).0 [
            | none ↦ ends out_of_fuel after
            | some (kcas_flagged other) ↦
                if Pointer_eq other des then goes (i + 1) after else goes i (help other after)
            | some (value v) ↦
                if v == arg.e then goes (i + 1) after else ends (finished state_failed) after
            | some (dcss_flagged other) ↦ ends (finished state_failed) after
          ]
    ]
  ]

  pub mark : (Pointer → Memory → Memory) → ℕ → Pointer → ℕ → Memory → Ended State × Memory
  mark help zero des i m = (out_of_fuel, m)
  mark help (suc fuel) des i m = elim (mark_round help fuel des i m) [
    | ends r t ↦ (r, t)
    | goes j t ↦ mark help fuel des j t
  ]

  -- A round of the loop that replaces the marks, at the index `i`.
  pub replace_round : Pointer → Bool → ℕ → Memory → Round Bool
  unfolding read_args
  replace_round des succeded i m = elim (read_args des m) [
    | none ↦ ends bottom m
    | some args ↦ elim (get_elem? args i) [
      | none ↦ ends (finished succeded) m
      | some arg ↦
          goes (i + 1) (
            compare_exchange arg.a (kcas_flagged des) (value (if succeded then arg.n else arg.e)) m)
    ]
  ]

  pub replace : ℕ → Pointer → Bool → ℕ → Memory → Ended Bool × Memory
  replace zero des succeded i m = (out_of_fuel, m)
  replace (suc fuel) des succeded i m = elim (replace_round des succeded i m) [
    | ends r t ↦ (r, t)
    | goes j t ↦ replace fuel des succeded j t
  ]

  -- The end of `kcas_help`, which reads the state again.
  pub conclude : ℕ → Pointer → Memory → Ended Bool × Memory
  unfolding read_state
  conclude fuel des m = elim (read_state des m) [
    | some state_succeded ↦ replace fuel des true 0 m
    | _ ↦ replace fuel des false 0 m
  ]

  abbrev decide : ℕ → Pointer → Ended State × Memory → Ended Bool × Memory
  decide fuel des (finished state, m) = elim (cas_state des state_undecided state m).0 [
    | none ↦ (bottom, m)
    | some s ↦ conclude fuel des (cas_state des state_undecided state m).1
  ]
  decide fuel des (bottom, m) = (bottom, m)
  decide fuel des (out_of_fuel, m) = (out_of_fuel, m)

  pub kcas_help : ℕ → Pointer → Memory → Ended Bool × Memory
  unfolding read_state cas_state
  kcas_help zero des m = (out_of_fuel, m)
  kcas_help (suc fuel) des m = elim (read_state des m) [
    | none ↦ (bottom, m)
    | some state_undecided ↦
        decide fuel des (mark (λ other t. (kcas_help fuel other t).1) fuel des 0 m)
    | some _ ↦ conclude fuel des m
  ]

  -- `create_new` for a kcas.
  pub kcas_create_new : List KcasArg → Memory → Pointer × Memory
  kcas_create_new args m =
      let sequence : ℕ = sequence_inc (sequence_inc (m.kcas_pool me.pid).sequence) in
      (
        record { pid = me.pid; sequence = sequence },
        record m {
          kcas_pool =
              update m.kcas_pool me.pid
                (record { state = state_undecided; sequence = sequence; args = args });
        },
      )

  pub kcas : ℕ → List KcasArg → Memory → Ended Bool × Memory
  unfolding kcas_create_new
  kcas fuel args m = kcas_help fuel (kcas_create_new args m).0 (kcas_create_new args m).1

  -- `kcas_read`, on fuel.
  pub kcas_read : ℕ → ℕ → Memory → Option Word × Memory
  kcas_read zero a m = (none, m)
  kcas_read (suc fuel) a m =
      let after : Memory = (dcss_read me fuel a m).1 in
      elim (dcss_read me fuel a m).0 [
        | none ↦ (none, after)
        | some (kcas_flagged des) ↦ kcas_read fuel a (kcas_help fuel des after).1
        | some r ↦ (some r, after)
      ]
