-- ===== src/Pool/Workers/Tests.antt =====
-- A pool of one worker of include/sl/exec/thread/pool/monolithic.hpp, from its first sleep to `stop`.
use serious_execution_librar.Prelude.{
  ℕ, ◌+◌, ◌<◌, ◌≡◌, ◌≢◌, refl, true, some, List, [], arith, count,
}
use serious_execution_librar.Intrusive.{plain_list}
use serious_execution_librar.Pool.Workers.{
  with_hw_limit, Workers, close, execute, join, init, push, try_pop, pushes, pops, executes, closes,
  joins, Reach, start, later,
}
use serious_execution_librar.Pool.Workers.Wakeup.{awake, no_lost_wakeup, stop_lem}

abbrev queued : Workers (List ℕ)
queued = push plain_list 7 (some 0) (try_pop plain_list 0 (init plain_list))

abbrev ended : Workers (List ℕ)
ended = try_pop plain_list 0 (close (execute 0 7 (try_pop plain_list 0 queued)))

Reach-queued : Reach plain_list 1 queued
unfolding init try_pop push
Reach-queued = later (later start (pops 0 (omega arith) refl)) (pushes 7 0 (omega arith) refl)

Reach-ended : Reach plain_list 1 ended
unfolding init try_pop push execute close
Reach-ended =
    later
      (later
        (later (later Reach-queued (pops 0 (omega arith) refl)) (executes 0 7 (omega arith) refl))
        closes)
      (pops 0 (omega arith) refl)

Reach-joined : Reach plain_list 1 (join ended)
unfolding init try_pop push execute close
Reach-joined = later Reach-ended (joins refl (omega arith) refl)

some_queued : queued.q ≢ []
unfolding init try_pop push
some_queued e = ground (arith, e)

no_lost_wakeup_example : (i : ℕ) × (i < 1) × (awake (queued.workers i) ≡ true)
no_lost_wakeup_example = no_lost_wakeup plain_list 1 (omega arith) Reach-queued some_queued

all_joined : (join ended).joined ≡ 1
unfolding init try_pop push execute close join
all_joined = refl

stop_lem_example :
    count 7 (join ended).executed + count 7 (join ended).refused ≡ count 7 (join ended).scheduled
stop_lem_example = stop_lem plain_list 1 (omega arith) Reach-joined all_joined 7

one_worker : with_hw_limit 1 3 ≡ 1
unfolding with_hw_limit
one_worker = refl
