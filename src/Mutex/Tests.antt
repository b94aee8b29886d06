-- ===== src/Mutex/Tests.antt =====
-- A lock of include/sl/exec/algo/sync/mutex.hpp over executor 1, with serial executor 2.
use serious_execution_librar.Prelude.{ℕ, ◌≡◌, refl, true, false}
use serious_execution_librar.Signal.{continue_on}
use serious_execution_librar.Mutex.{mutex_lock, move_lock, destructible, unlock_on, unlock, lock}

-- What is chained after `lock` is scheduled on the serial executor.
lock_executor : (lock {O = ℕ} ⊥ 1 2).get_executor ≡ 2
unfolding lock continue_on
lock_executor = refl

-- The destructor refuses a lock that is held, and allows one that was unlocked or moved from.
held : destructible (mutex_lock 1) ≡ false
unfolding destructible mutex_lock
held = refl

unlocked : destructible (unlock {O = ℕ} ⊥ (mutex_lock 1)).1 ≡ true
unfolding destructible mutex_lock unlock unlock_on
unlocked = refl

moved_from : destructible (move_lock (mutex_lock 1)).1 ≡ true
unfolding destructible mutex_lock move_lock
moved_from = refl
