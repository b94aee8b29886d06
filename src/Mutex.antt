-- ===== src/Mutex.antt =====
-- include/sl/exec/algo/sync/mutex.hpp: a lock that is given by continuing on a serial executor. Executors are
-- numbers, as in Signal: `serial` is the one of the mutex, over `inner`.
mod Tests
use serious_execution_librar.Prelude.{ℕ, Bool, true, false, not}
use serious_execution_librar.Signal.{Signal, value_as_signal, continue_on, start_on}

pub record MutexLock : Type 0 where
  pub executor : ℕ
  pub is_locked : Bool

-- The constructor from an executor.
pub mutex_lock : ℕ → MutexLock
mutex_lock ex = record { executor = ex; is_locked = true }

-- The move constructor: the new lock and the old one.
pub move_lock : MutexLock → MutexLock × MutexLock
move_lock other = (other, record other { is_locked = false })

-- Whether the assertion of the destructor holds.
pub destructible : MutexLock → Bool
destructible l = not l.is_locked

-- `Undefined` is the error type `meta::undefined`, which comes from outside.
module _ {O : Type 0} (Undefined : Type 0) where
  pub unlock_on : ℕ → MutexLock → Signal O (Unit {0}) Undefined × MutexLock
  unlock_on ex l = (start_on ex, record l { is_locked = false })

  pub unlock : MutexLock → Signal O (Unit {0}) Undefined × MutexLock
  unfolding unlock_on
  unlock l = unlock_on l.executor l

  -- `mutex::lock`.
  pub lock : ℕ → ℕ → Signal O MutexLock Undefined
  unfolding mutex_lock
  lock inner serial = continue_on serial (value_as_signal (mutex_lock inner))
