-- ===== src/Par/Select/Cases.antt =====
-- include/sl/exec/algo/sync/select.hpp: how a select is put together, and its emission as one thread sees it.
-- The signals of the cases are parameters, as what their connections do when they are emitted.
pub mod Trying
mod Tests
use serious_execution_librar.Prelude.{
  ℕ, zero, suc, ◌+◌, Bool, true, false, ◌&&◌, Option, none, some, List, [], ◌∷◌, ◌++◌, ◌==◌,
  if◌then◌else◌, update,
}
use serious_execution_librar.Slot.{Completion, value, error, null}
use serious_execution_librar.Race.{Pc, settling, Race, init, claim_for}
use serious_execution_librar.Ordered.{emit_in_order}
use serious_execution_librar.Par.Select.{
  Select, set_value_impl, set_value_skip_done, set_error_impl, set_null_impl, end_value, end_last,
}

-- What the connection of a case does before `emit` returns: nothing yet; hand over a value of a channel if
-- the flag can be claimed; or complete its slot.
pub data Offer (V : Type 0) : Type 0 where
  waits : Offer V
  hands : V → Offer V
  completes : Completion V (Unit {0}) → Offer V

-- `ordering` is there if the connection is `Ordered`.
pub record SelectCase (V W : Type 0) : Type 0 where
  pub ordering : Option ℕ
  pub offer : Offer V
  pub functor : V → W

-- `executor_` is named by its inner executor.
pub record Cases (V W : Type 0) : Type 0 where
  pub size : ℕ
  pub cases : ℕ → SelectCase V W
  pub executor : ℕ

abbrev is_ordered : Option ℕ → Bool
is_ordered none = false
is_ordered (some ordering) = true

-- The order of `parallel_connection::emit`.
pub declared : ℕ → List ℕ
declared zero = []
declared (suc n) = declared n ++ n ∷ []

module _ {V W : Type 0} where
  -- `select_start::case_`.
  pub start_case : ℕ → SelectCase V W → Cases V W
  start_case ex c = record { size = 1; cases = λ i. c; executor = ex }

  pub case_ : SelectCase V W → Cases V W → Cases V W
  case_ c s = record s { size = suc s.size; cases = update s.cases s.size c }

  -- The case of a `result_signal` that holds a value, which is not ordered.
  pub default_ : V → (V → W) → Cases V W → Cases V W
  unfolding case_
  default_ ok_tag functor s =
      case_ (record { ordering = none; offer = completes (value ok_tag); functor = functor }) s

  pub get_executor : Cases V W → ℕ
  get_executor s = s.executor

  -- The handler of an error or null, to its end.
  abbrev end_if_last : (ℕ → V → W) → ℕ → Pc (Completion V (Unit {0})) → Select V W → Select V W
  end_if_last functor i (settling r) s = end_last functor i r s
  end_if_last functor i _ s = s

  abbrev functors : Cases V W → ℕ → V → W
  functors c i = (c.cases i).functor

  -- The emission of the connection `i`, with the handler of its slot if that is called.
  pub emit_offer : Cases V W → ℕ → Offer V → Select V W → Select V W
  unfolding set_value_impl set_value_skip_done set_error_impl set_null_impl end_value end_last
  emit_offer c i waits s = s
  emit_offer c i (hands v) s =
      if s.done
      then s
      else end_value (functors c) c.size i (set_value_skip_done (functors c) i v (claim_for i s))
  emit_offer c i (completes (value v)) s =
      end_value (functors c) c.size i (set_value_impl (functors c) i v s)
  emit_offer c i (completes (error e)) s =
      let t = set_error_impl (functors c) c.size i s in end_if_last (functors c) i (t.pcs i) t
  emit_offer c i (completes null) s =
      let t = set_null_impl (functors c) c.size i s in end_if_last (functors c) i (t.pcs i) t

  pub emit_each : Cases V W → List ℕ → Select V W → Select V W
  unfolding emit_offer
  emit_each c [] s = s
  emit_each c (i ∷ is) s = emit_each c is (emit_offer c i (c.cases i).offer s)

  -- `connections_are_ordered` for the first `n` cases.
  pub connections_are_ordered : ℕ → Cases V W → Bool
  connections_are_ordered zero c = true
  connections_are_ordered (suc n) c = connections_are_ordered n c && is_ordered (c.cases n).ordering

  -- `select_connection::emit`.
  pub emit : (List (ℕ × ℕ) → List (ℕ × ℕ)) → Cases V W → Select V W
  unfolding emit_each connections_are_ordered declared emit_in_order init
  emit stable_sort c =
      if connections_are_ordered c.size c
      then emit_each c (declared c.size) init
      else emit_each c (emit_in_order stable_sort (λ i. (c.cases i).ordering) c.size).emissions init
