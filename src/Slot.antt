-- ===== src/Slot.antt =====
-- include/sl/exec/model/slot.hpp: how a slot is completed. `meta::maybe` and `meta::result` of `sl::meta`,
-- which stand for `std::optional` and `std::expected`, are read as `Option` and `Result`.
use serious_execution_librar.Prelude.{Option, none, some}

pub data Result (V E : Type 0) : Type 0 where
  ok : V → Result V E
  err : E → Result V E

-- A call of one of the three methods of a slot.
pub data Completion (V E : Type 0) : Type 0 where
  value : V → Completion V E
  error : E → Completion V E
  null : Completion V E

abbrev pub of_result : {V E : Type 0} → Result V E → Completion V E
of_result (ok v) = value v
of_result (err e) = error e

unfoldable pub fulfill_slot : {V E : Type 0} → Option (Result V E) → Completion V E
fulfill_slot none = null
fulfill_slot (some r) = of_result r
