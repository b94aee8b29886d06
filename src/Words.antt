-- ===== src/Words.antt =====
-- include/sl/exec/thread/detail/multiword.hpp on a 64-bit system: the layout of state words and of
-- pointers to descriptors. Words are numbers below 2 ^ 64; shifts are products and quotients, masks are
-- remainders, and an `|` of words without common bits is a sum.
pub mod Layout
mod Tests
use serious_execution_librar.Prelude.{ℕ, ◌+◌, ◌-◌, ◌*◌, ◌/◌, ◌%◌, Bool, ◌==◌, if◌then◌else◌}

-- 2 ^ 16, 2 ^ 32 and 2 ^ 64.
abbrev pub quarter : ℕ
quarter = 65536

abbrev pub half : ℕ
half = 4294967296

abbrev pub word : ℕ
word = 18446744073709551616

pub record Fields : Type 0 where
  pub flag : ℕ
  pub pid : ℕ
  pub sequence : ℕ

-- `state_traits`: mutables in the upper half, the sequence in the lower one.
abbrev pub sequence_inc : ℕ → ℕ
sequence_inc sequence = (sequence + 1) % half

unfoldable pub extract_state : ℕ → ℕ × ℕ
extract_state state = ((state / half) % half, state % half)

unfoldable pub combine_state : ℕ → ℕ → ℕ
combine_state mutables sequence = (mutables % half) * half + sequence % half

-- `pointer_traits`: flag, pid and sequence.
pub extract_pointer : ℕ → Fields
extract_pointer pointer = record {
  flag = (pointer / half / quarter) % quarter;
  pid = (pointer / half) % quarter;
  sequence = pointer % half;
}

pub combine_pointer : Fields → ℕ
combine_pointer f =
    (f.flag % quarter) * half * quarter + (f.pid % quarter) * half + f.sequence % half

-- `dcss_descriptor::flag_bit` and `kcas_descriptor::flag_bit`.
abbrev pub dcss_flag_bit : ℕ
dcss_flag_bit = 32768

abbrev pub kcas_flag_bit : ℕ
kcas_flag_bit = 16384

-- `&` and `^` with a single bit.
abbrev pub has_bit : ℕ → ℕ → Bool
has_bit flag_bit flag = (flag / flag_bit) % 2 == 1

pub has_flag : ℕ → ℕ → Bool
unfolding extract_pointer
has_flag flag_bit des = has_bit flag_bit (extract_pointer des).flag

pub toggle_flag : ℕ → ℕ → ℕ
unfolding extract_pointer combine_pointer
toggle_flag flag_bit des =
    let f : Fields = extract_pointer des in
    combine_pointer
      (record f { flag = if has_bit flag_bit f.flag then f.flag - flag_bit else f.flag + flag_bit })
