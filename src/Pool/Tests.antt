-- ===== src/Pool/Tests.antt =====
-- Runs of include/sl/exec/thread/pool/monolithic.hpp.
use serious_execution_librar.Prelude.{ℕ, ◌+◌, ◌≡◌, ◌≢◌, refl, List, [], ◌∷◌, arith, count}
use serious_execution_librar.Intrusive.{plain_list}
use serious_execution_librar.Pool.{
  Pool, init, add, push, try_pop, execute, finish, close, adds, pushes, pops, executes, finishes,
  closes, Reach, start, later,
}
use serious_execution_librar.Pool.Idle.{refused_lem}

abbrev queued : Pool (List ℕ)
queued = push plain_list 7 (add (init plain_list))

Reach-queued : Reach plain_list queued
unfolding init add push
Reach-queued = later (later start (adds (omega arith))) (pushes 7 (omega arith))

abbrev idle : Pool (List ℕ)
idle = finish (execute [] 7 [] (record queued { tq = []; running = 7 ∷ [] }))

Reach-idle : Reach plain_list idle
unfolding init add push try_pop execute
Reach-idle =
    later (later (later Reach-queued (pops refl)) (executes [] 7 [] refl)) (finishes (omega arith))

no_work : idle.work ≡ 0
unfolding init add push execute finish
no_work = refl

abbrev late : Pool (List ℕ)
late = push plain_list 8 (add (close idle))

Reach-late : Reach plain_list late
unfolding init add push execute finish close
Reach-late = later (later (later Reach-idle closes) (adds (omega arith))) (pushes 8 (omega arith))

some_refused : late.refused ≢ []
unfolding init add push execute finish close
some_refused e = cc

refused_lem_example :
    (late.work ≢ 0)
    × ((n : ℕ)
        → count n late.refused + count n late.executed + count n late.running + count n late.tq
          ≡ count n late.scheduled)
refused_lem_example = refused_lem plain_list Reach-late some_refused
