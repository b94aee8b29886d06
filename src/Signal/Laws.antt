-- ===== src/Signal/Laws.antt =====
-- Completions of the signals of include/sl/exec/algo/, for any slot that is subscribed.
use serious_execution_librar.Prelude.{
  ℕ, ◌≡◌, refl, Bool, Option, none, some, arith, if◌then◌else◌, ◌∙◌,
}
use serious_execution_librar.Slot.{
  Result, ok, err, Completion, value, error, null, of_result, fulfill_slot,
}
use serious_execution_librar.Signal.{
  Act, done, lost, scheduled, Slot, Signal, schedule, continue_on, box, map, and_then, map_error,
  or_else, flatten, get, get_slot, map_slot, map_execute, and_then_slot, and_then_execute,
  map_error_slot, map_error_execute, or_else_slot, or_else_execute, flatten_slot, box_slot,
  schedule_execute,
}

-- Runs the tasks: `executes` says which executors execute their tasks, and the others cancel them.
unfoldable pub settle : {O : Type 0} → (ℕ → Bool) → Act O → Option O
settle executes (done o) = some o
settle executes lost = none
settle executes (scheduled ex next) = settle executes (next (executes ex))

-- The signal completes its slot once, with `x`, whatever the slot is.
abbrev pub Completes : {O V E : Type 0} → (ℕ → Bool) → Signal O V E → Completion V E → Type 0
Completes {O} {V} {E} executes s x =
    (k : Slot O V E) → settle executes (s.connect k) ≡ settle executes (k x)

-- The operations on results that the transformations stand for; `runs` says whether the task is executed.
unfoldable pub map_result :
    {V W E : Type 0} → Bool → (V → Result W E) → Completion V E → Completion W E
map_result runs f (value v) = if runs then of_result (f v) else null
map_result runs f (error e) = error e
map_result runs f null = null

pub map_failure : {V D E : Type 0} → Bool → (D → Result V E) → Completion V D → Completion V E
map_failure runs f (value v) = value v
map_failure runs f (error e) = if runs then of_result (f e) else null
map_failure runs f null = null

module _ {O V W E : Type 0} (executes : ℕ → Bool) (s : Signal O V E) (x : Completion V E) where
  -- `map` applies its functor to a value, in a task on the executor of its signal; if that executor
  -- cancels the task, it completes with null. Errors and null pass. This holds for every signal that
  -- completes once.
  pub map_lem :
      (f : V → W)
      → Completes executes s x
      → Completes executes (map f s) (map_result (executes s.get_executor) (λ v. ok (f v)) x)
  unfolding map map_slot map_execute map_result settle
  map_lem f completes k = completes _ ∙ by_case x
    where
      by_case :
          (y : Completion V E)
          → settle executes (map_slot f s.get_executor k y)
            ≡ settle executes (k (map_result (executes s.get_executor) (λ v. ok (f v)) y))
      by_case (value v) = ground arith
      by_case (error e) = refl
      by_case null = refl

  -- `and_then` gives the result of its functor for a value, in a task on the executor of its signal;
  -- if that executor cancels the task, it completes with null. Errors and null pass. This holds for
  -- every signal that completes once.
  pub and_then_lem :
      (f : V → Result W E)
      → Completes executes s x
      → Completes executes (and_then f s) (map_result (executes s.get_executor) f x)
  unfolding and_then and_then_slot and_then_execute schedule_execute map_result settle
  and_then_lem f completes k = completes _ ∙ by_case x
    where
      by_case :
          (y : Completion V E)
          → settle executes (and_then_slot f s.get_executor k y)
            ≡ settle executes (k (map_result (executes s.get_executor) f y))
      by_case (value v) = elim (f v) [ ok w ↦ ground arith | err e ↦ ground arith ]
      by_case (error e) = refl
      by_case null = refl

module _ {O V D E : Type 0} (executes : ℕ → Bool) (s : Signal O V D) (x : Completion V D) where
  -- `map_error` applies its functor to an error, in a task on the executor of its signal; if that
  -- executor cancels the task, it completes with null. Values and null pass. This holds for every
  -- signal that completes once.
  pub map_error_lem :
      (f : D → E)
      → Completes executes s x
      → Completes executes
          (map_error f s)
          (map_failure (executes s.get_executor) (λ e. err (f e)) x)
  unfolding map_error map_error_slot map_error_execute map_failure settle
  map_error_lem f completes k = completes _ ∙ by_case x
    where
      by_case :
          (y : Completion V D)
          → settle executes (map_error_slot f s.get_executor k y)
            ≡ settle executes (k (map_failure (executes s.get_executor) (λ e. err (f e)) y))
      by_case (value v) = refl
      by_case (error e) = ground arith
      by_case null = refl

  -- `or_else` gives the result of its functor for an error, in a task on the executor of its signal;
  -- if that executor cancels the task, it completes with null. Values and null pass. This holds for
  -- every signal that completes once.
  pub or_else_lem :
      (f : D → Result V E)
      → Completes executes s x
      → Completes executes (or_else f s) (map_failure (executes s.get_executor) f x)
  unfolding or_else or_else_slot or_else_execute schedule_execute map_failure settle
  or_else_lem f completes k = completes _ ∙ by_case x
    where
      by_case :
          (y : Completion V D)
          → settle executes (or_else_slot f s.get_executor k y)
            ≡ settle executes (k (map_failure (executes s.get_executor) f y))
      by_case (value v) = refl
      by_case (error e) = elim (f e) [ ok w ↦ ground arith | err d ↦ ground arith ]
      by_case null = refl

module _ {O V E : Type 0} (executes : ℕ → Bool) where
  -- What an outer completion of `flatten` comes to: that of the inner signal, or the error or null.
  abbrev pub Flattens : Completion (Signal O V E) E → Completion V E → Type 0
  Flattens (value inner) y = Completes executes inner y
  Flattens (error e) y = y ≡ error e
  Flattens null y = y ≡ null

  -- `flatten` of a signal that completes once with a signal which completes once completes once, with
  -- the completion of the inner signal; an error and null of the outer signal pass.
  pub flatten_lem :
      (s : Signal O (Signal O V E) E) (x : Completion (Signal O V E) E) (y : Completion V E)
      → Completes executes s x
      → Flattens x y
      → Completes executes (flatten s) y
  unfolding flatten flatten_slot
  flatten_lem s x y completes inner k = completes _ ∙ by_case x inner
    where
      by_case :
          (x : Completion (Signal O V E) E)
          → Flattens x y
          → settle executes (flatten_slot k x) ≡ settle executes (k y)
      by_case (value i) h = h k
      by_case (error e) h = cc
      by_case null h = cc

  -- Boxing a signal that completes once keeps its executor, and its completion, which survives the way
  -- through `slot_callback::set_result`.
  pub box_lem :
      (s : Signal O V E) (x : Completion V E)
      → Completes executes s x
      → Completes executes (box s) x × ((box s).get_executor ≡ s.get_executor)
  unfolding box box_slot fulfill_slot
  box_lem s x completes = (λ k. completes _ ∙ by_case k x, refl)
    where
      by_case :
          (k : Slot O V E) (y : Completion V E)
          → settle executes (box_slot (λ maybe_result. k (fulfill_slot maybe_result)) y)
            ≡ settle executes (k y)
      by_case k (value v) = refl
      by_case k (error e) = refl
      by_case k null = refl

  -- After `continue_on`, the functor of `and_then` is run by the new executor, and that of `schedule` by
  -- its own. The pipeline completes with the second functor's result for the value of the first, if both
  -- executors execute their tasks; with the error of the first; and with null if a task is cancelled.
  pub continue_on_lem :
      (first second : ℕ) (f : Unit {0} → Result V E) (g : V → Result V E)
      → Completes {O = O} executes
          (and_then g (continue_on second (schedule first f)))
          (map_result (executes second) g (if executes first then of_result (f tt) else null))
  unfolding and_then and_then_slot and_then_execute schedule schedule_execute continue_on map_result
      settle
  continue_on_lem first second f g k = elim (f tt) [
    | ok v ↦ elim (g v) [ ok w ↦ ground arith | err e ↦ ground arith ]
    | err e ↦ ground arith
  ]

-- What waits in `get` sees exactly the completion of the signal, once the event is set: a value, an
-- error, or nothing for null. This holds for every signal that completes once.
pub get_lem :
    {V E : Type 0} (executes : ℕ → Bool) (s : Signal (Option (Result V E)) V E) (x : Completion V E)
    → Completes executes s x
    → (r : Option (Result V E)) × (settle executes (get s) ≡ some r) × (fulfill_slot r ≡ x)
unfolding get settle fulfill_slot
get_lem executes s (value v) h = (some (ok v), h get_slot, refl)
get_lem executes s (error e) h = (some (err e), h get_slot, refl)
get_lem executes s null h = (none, h get_slot, refl)
