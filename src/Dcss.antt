-- ===== src/Dcss.antt =====
-- include/sl/exec/thread/detail/multiword_dcss.hpp and src/thread/detail/multiword_dcss.cpp, as one thread
-- runs them, from a state that other threads may have left in the middle of theirs, with the memory that
-- they share with kcas. What a word holds is read by its flags: an application value, or a flagged pointer.
use serious_execution_librar.Prelude.{
  ℕ, zero, suc, Bool, true, false, ◌&&◌, Option, none, some, List, ◌≡◌, ◌==◌, if◌then◌else◌, update,
}
use serious_execution_librar.Words.{sequence_inc}

pub record Pointer : Type 0 where
  pub pid : ℕ
  pub sequence : ℕ

pub data Word : Type 0 where
  value : ℕ → Word
  dcss_flagged kcas_flagged : Pointer → Word

-- The mutables of a kcas descriptor, under `state_mask`.
pub data State : Type 0 where
  state_undecided state_succeded state_failed : State

-- One of the words of a kcas: its address, the expected and the new value.
pub record KcasArg : Type 0 where
  pub a : ℕ
  pub e : ℕ
  pub n : ℕ

pub record KcasDescriptor : Type 0 where
  pub state : State
  pub sequence : ℕ
  pub args : List KcasArg

-- `a1`, `a1_load` and `e1`: the state of a kcas descriptor against undecided, as in `kcas_help`, or a word
-- against a value, as with `dcss_a1_load_default`.
pub data Load : Type 0 where
  is_undecided : Pointer → Load
  holds : ℕ → Word → Load

pub record Dcss : Type 0 where
  pub a1 : Load
  pub a2 : ℕ
  pub e2 : Word
  pub n2 : Word

pub record DcssDescriptor : Type 0 where
  pub sequence : ℕ
  pub immutables : Dcss

-- The words, and the descriptors of each thread.
pub record Memory : Type 0 where
  pub words : ℕ → Word
  pub kcas_pool : ℕ → KcasDescriptor
  pub dcss_pool : ℕ → DcssDescriptor

-- The thread that runs, with its pid. `compare_exchange_weak` comes from outside: `fails` says whether it
-- fails spuriously, at an address, for an expected word, in a memory.
pub record Thread : Type 0 where
  pub pid : ℕ
  pub fails : ℕ → Word → Memory → Bool

-- None of the thread's weak compare-exchanges fails spuriously.
pub record Reliable (me : Thread) : Type 0 where
  pub never : (a : ℕ) (e : Word) (m : Memory) → me.fails a e m ≡ false

abbrev pub Pointer_eq : Pointer → Pointer → Bool
Pointer_eq p q = (p.pid == q.pid) && (p.sequence == q.sequence)

abbrev pub Word_eq : Word → Word → Bool
Word_eq (value v) (value w) = v == w
Word_eq (dcss_flagged p) (dcss_flagged q) = Pointer_eq p q
Word_eq (kcas_flagged p) (kcas_flagged q) = Pointer_eq p q
Word_eq v w = false

abbrev pub State_eq : State → State → Bool
State_eq state_undecided state_undecided = true
State_eq state_succeded state_succeded = true
State_eq state_failed state_failed = true
State_eq s t = false

-- `compare_exchange_strong`.
unfoldable pub compare_exchange : ℕ → Word → Word → Memory → Memory
compare_exchange a e n m =
    if Word_eq (m.words a) e then record m { words = update m.words a n } else m

-- `read_mutables` and `read_immutables` of a kcas descriptor, with none for bottom.
unfoldable pub read_state : Pointer → Memory → Option State
read_state des m =
    if (m.kcas_pool des.pid).sequence == des.sequence
    then some (m.kcas_pool des.pid).state
    else none

unfoldable pub read_args : Pointer → Memory → Option (List KcasArg)
read_args des m =
    if (m.kcas_pool des.pid).sequence == des.sequence then some (m.kcas_pool des.pid).args else none

-- `cas_mutable`, which returns the state then.
unfoldable pub cas_state : Pointer → State → State → Memory → Option State × Memory
cas_state des expected new m =
    let d : KcasDescriptor = m.kcas_pool des.pid in
    if d.sequence == des.sequence
    then (if State_eq d.state expected
        then (
          some new,
          record m { kcas_pool = update m.kcas_pool des.pid (record d { state = new }) },
        )
        else (some d.state, m))
    else (none, m)

abbrev pub value_or : State → Option State → State
value_or d (some s) = s
value_or d none = d

-- `a1_load(a1) == e1`.
unfoldable pub a1_is_e1 : Load → Memory → Bool
unfolding read_state
a1_is_e1 (is_undecided des) m =
    State_eq (value_or state_succeded (read_state des m)) state_undecided
a1_is_e1 (holds a e) m = Word_eq (m.words a) e

module _ (me : Thread) where
  unfoldable pub compare_exchange_weak : ℕ → Word → Word → Memory → Memory
  unfolding compare_exchange
  compare_exchange_weak a e n m = if me.fails a e m then m else compare_exchange a e n m

  unfoldable pub dcss_help : Pointer → Memory → Memory
  unfolding compare_exchange_weak a1_is_e1
  dcss_help des m =
      if (m.dcss_pool des.pid).sequence == des.sequence
      then (let d : Dcss = (m.dcss_pool des.pid).immutables in
          if a1_is_e1 d.a1 m
          then compare_exchange_weak d.a2 (dcss_flagged des) d.n2 m
          else compare_exchange_weak d.a2 (dcss_flagged des) d.e2 m)
      else m

  unfoldable pub dcss_create_new : Dcss → Memory → Pointer × Memory
  dcss_create_new immutables m =
      let sequence : ℕ = sequence_inc (sequence_inc (m.dcss_pool me.pid).sequence) in
      (
        record { pid = me.pid; sequence = sequence },
        record m {
          dcss_pool =
              update m.dcss_pool me.pid (record { sequence = sequence; immutables = immutables });
        },
      )

  -- The loop of `dcss`, on fuel: `r`, none if the fuel runs out.
  unfoldable pub dcss_loop : ℕ → Pointer → Dcss → Memory → Option Word × Memory
  unfolding dcss_help compare_exchange_weak
  dcss_loop zero des d m = (none, m)
  dcss_loop (suc fuel) des d m =
      if Word_eq (m.words d.a2) d.e2
      then (some d.e2, compare_exchange_weak d.a2 d.e2 (dcss_flagged des) m)
      else elim (m.words d.a2) [
        | dcss_flagged other ↦ dcss_loop fuel des d (dcss_help other m)
        | r ↦ (some r, m)
      ]

  abbrev help_own : Pointer → Dcss → Option Word × Memory → Option Word × Memory
  help_own des d (some r, m) = (some r, if Word_eq r d.e2 then dcss_help des m else m)
  help_own des d (none, m) = (none, m)

  unfoldable pub dcss : ℕ → Dcss → Memory → Option Word × Memory
  unfolding dcss_create_new dcss_loop dcss_help
  dcss fuel d m =
      let created : Pointer × Memory = dcss_create_new d m in
      help_own created.0 d (dcss_loop fuel created.0 d created.1)

  -- `dcss_read`, on fuel.
  unfoldable pub dcss_read : ℕ → ℕ → Memory → Option Word × Memory
  dcss_read zero a m = (none, m)
  dcss_read (suc fuel) a m = elim (m.words a) [
    | dcss_flagged des ↦ dcss_read fuel a (dcss_help des m)
    | r ↦ (some r, m)
  ]
