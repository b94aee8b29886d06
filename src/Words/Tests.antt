-- ===== src/Words/Tests.antt =====
-- Words of include/sl/exec/thread/detail/multiword.hpp.
use serious_execution_librar.Prelude.{◌≡◌, refl, false, arith}
use serious_execution_librar.Words.{
  Fields, extract_pointer, combine_pointer, dcss_flag_bit, has_flag,
}
use serious_execution_librar.Words.Layout.{combine_pointer-extract_pointer}

abbrev fields : Fields
fields = record { flag = 1; pid = 3; sequence = 12 }

combine_pointer-extract_pointer_example :
    (extract_pointer (combine_pointer fields) ≡ fields)
    × (combine_pointer (extract_pointer 12884901900) ≡ 12884901900)
combine_pointer-extract_pointer_example =
    combine_pointer-extract_pointer fields 12884901900 (omega arith) (omega arith) (omega arith)
      (omega arith)

unflagged : has_flag dcss_flag_bit 12884901900 ≡ false
unfolding has_flag extract_pointer
unflagged = refl
