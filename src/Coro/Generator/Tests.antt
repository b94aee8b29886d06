-- ===== src/Coro/Generator/Tests.antt =====
-- Loops over generators of include/sl/exec/coro/generator.hpp.
use serious_execution_librar.Prelude.{ℕ, ◌≡◌, refl, some, [], ◌∷◌, arith}
use serious_execution_librar.Slot.{err}
use serious_execution_librar.Coro.{returned, thrown, aborted}
use serious_execution_librar.Coro.Generator.{
  Body, yields, returns, throws, Generator, get_return_object, begin, next, for_each, result,
}
use serious_execution_librar.Coro.Generator.Loop.{for_each_lem}

-- Two values, then an exception.
abbrev failing : Body ℕ ℕ ℕ
failing = yields 1 (yields 2 (throws 7))

for_each_lem_example :
    (g : Generator ℕ ℕ ℕ) × (for_each 3 [] (begin (get_return_object failing))
      ≡ some (1 ∷ 2 ∷ [], thrown 7, g))
    × (result g ≡ returned (err 7))
for_each_lem_example = for_each_lem failing 3 (omega arith)

-- A generator that is done cannot be resumed, and its result is there only once it is done.
not_done : result (get_return_object failing) ≡ aborted
unfolding result get_return_object
not_done = refl

abbrev four : Body ℕ ℕ ℕ
four = returns 4

resumed_late : (next (next (get_return_object four)).1).0 ≡ aborted
unfolding next get_return_object
resumed_late = refl
