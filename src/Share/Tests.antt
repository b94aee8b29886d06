-- ===== src/Share/Tests.antt =====
-- A run of include/sl/exec/algo/emit/share.hpp with two signals, and its theorems at it.
use serious_execution_librar.Prelude.{
  ℕ, ◌<◌, ◌≤◌, ◌≡◌, ◌⊎◌, refl, false, Option, some, [], arith, count_if,
}
use serious_execution_librar.Slot.{Result, ok}
use serious_execution_librar.Share.{
  Share, unborn, dropped, idle, produced, new_box, incref, decref, get_signal, drop_box, emit, copy,
  release, store, exchange, notify, finish, gets, drops_box, emits, copies, releases, stores,
  exchanges, notifies, finishes, Reach, start, later,
}
use serious_execution_librar.Share.Invariant.{weight, calls_of, AllCarry}
use serious_execution_librar.Share.Lifetime.{unfinished, share_safe, share_outcome}

abbrev five : Option (Result ℕ ℕ)
five = some (ok 5)

-- Signal 0 is emitted before the result comes, signal 1 after.
abbrev forked : Share ℕ ℕ
forked = drop_box (get_signal 1 (get_signal 0 new_box))

abbrev completed : Share ℕ ℕ
completed = finish 1 (notify 0 [] 0 (exchange (store five (emit 0 forked))))

abbrev over : Share ℕ ℕ
over = release 1 (copy 1 (emit 1 completed))

Reach-forked : Reach 2 five forked
unfolding new_box get_signal incref drop_box decref
Reach-forked =
    later
      (later (later start (gets 0 (omega arith) refl refl (omega arith)))
        (gets 1 (omega arith) refl refl (omega arith)))
      (drops_box refl)

Reach-completed : Reach 2 five completed
unfolding new_box get_signal incref drop_box decref emit store exchange notify finish
Reach-completed =
    later
      (later
        (later (later (later Reach-forked (emits 0 (omega arith) refl)) (stores refl))
          (exchanges refl))
        (notifies 0 [] 0 refl))
      (finishes 1 refl)

Reach-over : Reach 2 five over
unfolding new_box get_signal incref drop_box decref emit store exchange notify finish copy release
Reach-over =
    later (later (later Reach-completed (emits 1 (omega arith) refl)) (copies 1 (omega arith) refl))
      (releases 1 (omega arith) refl)

share_safe_example :
    (count_if (calls_of 0) completed.calls ≤ 1)
    × AllCarry five completed.calls
    × (completed.deletes ≤ 1)
    × ((completed.deletes ≡ 0)
        ⊎ ((completed.has_box ≡ false)
            × (weight (completed.phases 0) ≡ 0)
            × ((completed.producer ≡ idle) ⊎ (completed.producer ≡ produced))))
share_safe_example = share_safe 2 five Reach-completed 0 (omega arith)

both_over :
    (over.producer ≡ produced)
    × (over.has_box ≡ false)
    × ((i : ℕ) → i < 2 → unfinished (over.phases i) ≡ 0)
unfolding new_box get_signal incref drop_box decref emit store exchange notify finish copy release
both_over = (refl, refl, λ i b. ground arith)

share_outcome_example :
    (over.deletes ≡ 1)
    × ((i : ℕ)
        → ((over.phases i ≡ unborn) ⊎ (over.phases i ≡ dropped))
          ⊎ (count_if (calls_of i) over.calls ≡ 1))
share_outcome_example = share_outcome 2 five Reach-over both_over.0 both_over.1 both_over.2
