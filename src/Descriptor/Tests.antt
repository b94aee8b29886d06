-- ===== src/Descriptor/Tests.antt =====
-- Runs of the descriptor of include/sl/exec/thread/detail/multiword.hpp.
use serious_execution_librar.Prelude.{ℕ, ◌≡◌, refl, none}
use serious_execution_librar.Descriptor.{
  returned, Descriptor, init, mark, write, publish, validate, copy, validate_again,
}

-- Descriptor 0 is created with 7 and read.
abbrev one_created : Descriptor ℕ
one_created = publish 5 (write 7 (mark (init 0)))

abbrev read : Descriptor ℕ
read = validate_again 2 7 (copy (validate 2 one_created))

-- If the owner starts on the next descriptor during the copy, the read gives bottom.
stale : (validate_again 2 7 (mark (copy (validate 2 one_created)))).reader ≡ returned none
unfolding init mark write publish validate copy validate_again
    serious_execution_librar.Words.extract_state serious_execution_librar.Words.combine_state
stale = refl
