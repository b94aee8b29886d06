-- ===== src/Race.antt =====
-- What `any`, `all` and `select` share: `increment_and_check` and the scheduling methods of
-- include/sl/exec/algo/sync/detail/parallel.hpp, the flag `done_`, the slot that is completed, and how
-- far each of the N inner slots is. A step is one atomic access of the counter or of the flag.
pub mod Invariant
pub mod Box
pub mod Group
pub mod Protocol
pub mod Winner
use serious_execution_librar.Prelude.{
  ℕ, ◌+◌, ◌%◌, ◌^◌, Bool, true, false, Option, none, some, List, [], ◌∷◌, ◌++◌, ◌==◌, if◌then◌else◌,
  update,
}

-- Where the handler of an inner slot stands.
pub data Pc (I : Type 0) : Type 0 where
  pending : Pc I  -- no completion yet
  claimed : Pc I  -- the flag was set on behalf of this slot, which is not called yet
  counting : Pc I  -- past the flag, before `increment_and_check`
  settling : I → Pc I  -- `increment_and_check` said that it is the last; before the flag
  finished : Pc I

-- `calls` are the completions of the outer slot, `cancels` the arguments of
-- `schedule_try_cancel_beside`, `deletes` counts `schedule_delete_this`, and `inputs` records what each
-- inner slot was completed with. `I` is the type of the completions of inner slots, `O` of the outer one.
pub record Race (I O : Type 0) : Type 0 where
  pub counter : ℕ
  pub done : Bool
  pub calls : List O
  pub cancels : List ℕ
  pub deletes : ℕ
  pub pcs : ℕ → Pc I
  pub inputs : ℕ → Option I

unfoldable pub init : {I O : Type 0} → Race I O
init = record {
  counter = 0;
  done = false;
  calls = [];
  cancels = [];
  deletes = 0;
  pcs = λ i. pending;
  inputs = λ i. none;
}

abbrev pub u32 : ℕ → ℕ
u32 x = x % 2 ^ 32

module _ {I O : Type 0} where
  -- `if (!done_.exchange(true)) { slot_.set_…(…); parallel_.schedule_try_cancel_beside(index); }`
  unfoldable pub lead : ℕ → I → O → Race I O → Race I O
  lead i x r s = record s {
    done = true;
    calls = if s.done then s.calls else s.calls ++ r ∷ [];
    cancels = if s.done then s.cancels else s.cancels ++ i ∷ [];
    pcs = update s.pcs i counting;
    inputs = update s.inputs i (some x);
  }

  -- `if (!done_.exchange(true)) { slot_.set_…(…); } parallel_.schedule_delete_this();`
  unfoldable pub settle : ℕ → O → Race I O → Race I O
  settle i r s = record s {
    done = true;
    calls = if s.done then s.calls else s.calls ++ r ∷ [];
    deletes = s.deletes + 1;
    pcs = update s.pcs i finished;
  }

  -- The flag is claimed from outside for slot `i`.
  unfoldable pub claim_for : ℕ → Race I O → Race I O
  claim_for i s = record s { done = true; pcs = update s.pcs i claimed }

  -- A completion that skips the flag.
  unfoldable pub skip : ℕ → I → O → Race I O → Race I O
  skip i x r s = record s {
    calls = s.calls ++ r ∷ [];
    cancels = s.cancels ++ i ∷ [];
    pcs = update s.pcs i counting;
    inputs = update s.inputs i (some x);
  }

  -- `increment_and_check` for N connections: the counter, a uint32_t, and whether this was the last.
  unfoldable pub increment_and_check : ℕ → Race I O → Race I O × Bool
  increment_and_check n s = (record s { counter = u32 (s.counter + 1) }, u32 (s.counter + 1) == n)

  -- `if (parallel_.increment_and_check()) { parallel_.schedule_delete_this(); }`
  unfoldable pub count : ℕ → ℕ → Race I O → Race I O
  unfolding increment_and_check
  count n i s =
      let (t, is_last) = increment_and_check n s in
      record t {
        deletes = if is_last then t.deletes + 1 else t.deletes;
        pcs = update t.pcs i finished;
      }

  -- `if (!parallel_.increment_and_check()) { return; }`
  unfoldable pub trail : ℕ → ℕ → I → Race I O → Race I O
  unfolding increment_and_check
  trail n i x s =
      let (t, is_last) = increment_and_check n s in
      record t {
        pcs = update t.pcs i (if is_last then settling x else finished);
        inputs = update t.inputs i (some x);
      }
