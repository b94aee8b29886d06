-- ===== src/Coro/Await/Tests.antt =====
-- Tests and examples for Coro.Await: a coroutine that awaits a result on executor 1 and adds one.
use serious_execution_librar.Prelude.{[], ℕ, ◌+◌, ◌≡◌, refl, Bool, some, true, false}
use serious_execution_librar.Slot.{Result, ok, err, value, fulfill_slot}
use serious_execution_librar.Signal.{
  Signal, result_signal, value_as_signal, null_as_signal, continue_on,
}
use serious_execution_librar.Signal.Laws.{settle, Completes}
use serious_execution_librar.Coro.Await.{
  Fate, co_await, at_co_await, new_connection, make_connection_coro, async_signal,
}
use serious_execution_librar.Coro.Await.Bridge.{awaited, co_await_lem, ends}

abbrev executes : ℕ → Bool
executes ex = true

abbrev Four : Type 0
Four = Signal (Fate ℕ ℕ) ℕ ℕ

abbrev four : Four
four = continue_on 1 (value_as_signal 4)

four-Completes : Completes executes four (value 4)
unfolding continue_on value_as_signal result_signal fulfill_slot
four-Completes k = refl

abbrev plus_one : Result ℕ ℕ → Result ℕ ℕ
plus_one (ok v) = ok (v + 1)
plus_one (err e) = err e

-- The frame stays suspended, and the slot is not called.
stuck :
    settle executes (async_signal (co_await (null_as_signal {E = ℕ}) (λ r. ends (plus_one r)))).1
    ≡ some (record { place = at_co_await; is_fulfilled = false; calls = [] })
unfolding co_await async_signal make_connection_coro new_connection null_as_signal result_signal
    fulfill_slot settle
stuck = refl

co_await_lem_example :
    settle executes (co_await four (λ r. ends (plus_one r)))
    ≡ settle executes (awaited (executes four.get_executor) (λ r. ends (plus_one r)) (value 4))
co_await_lem_example = co_await_lem executes four (value 4) (λ r. ends (plus_one r)) four-Completes
