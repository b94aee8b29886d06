-- ===== src/Words/Layout.antt =====
-- The words of include/sl/exec/thread/detail/multiword.hpp and their fields.
use serious_execution_librar.Prelude.{ℕ, ◌<◌, ◌≡◌, true, false, arith}
use serious_execution_librar.Words.{
  half, quarter, word, Fields, extract_state, combine_state, extract_pointer, combine_pointer,
  dcss_flag_bit, kcas_flag_bit, has_flag, toggle_flag,
}

-- A state word gives back its mutables and its sequence, when these fit in 32 bits, and every word is
-- made of what it gives.
pub combine_state-extract_state :
    (mutables sequence state : ℕ)
    → mutables < half
    → sequence < half
    → state < word
    → (extract_state (combine_state mutables sequence) ≡ (mutables, sequence))
      × (combine_state (extract_state state).0 (extract_state state).1 ≡ state)
unfolding extract_state combine_state
combine_state-extract_state mutables sequence state m s w = (ground arith, omega arith)

-- A pointer gives back its flag, pid and sequence, when these fit, and every pointer is made of what it
-- gives.
pub combine_pointer-extract_pointer :
    (f : Fields) (pointer : ℕ)
    → f.flag < quarter
    → f.pid < quarter
    → f.sequence < half
    → pointer < word
    → (extract_pointer (combine_pointer f) ≡ f)
      × (combine_pointer (extract_pointer pointer) ≡ pointer)
unfolding extract_pointer combine_pointer
combine_pointer-extract_pointer f pointer a b c d = (ground arith, omega arith)

-- For a pointer without the flag of dcss, setting the flag makes it flagged and keeps the pid and the
-- sequence and the flag of kcas, and toggling it again gives the pointer back.
pub toggle_flag_lem :
    (des : ℕ)
    → des < word
    → has_flag dcss_flag_bit des ≡ false
    → (has_flag dcss_flag_bit (toggle_flag dcss_flag_bit des) ≡ true)
      × ((extract_pointer (toggle_flag dcss_flag_bit des)).pid ≡ (extract_pointer des).pid)
      × ((extract_pointer (toggle_flag dcss_flag_bit des)).sequence
          ≡ (extract_pointer des).sequence)
      × (has_flag kcas_flag_bit (toggle_flag dcss_flag_bit des) ≡ has_flag kcas_flag_bit des)
      × (toggle_flag dcss_flag_bit (toggle_flag dcss_flag_bit des) ≡ des)
unfolding toggle_flag has_flag extract_pointer combine_pointer
toggle_flag_lem des b unflagged =
    (ground arith, ground arith, ground arith, ground arith, ground arith)
