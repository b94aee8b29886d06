-- ===== src/Stack.antt =====
-- The stacks of the simulated machine: include/sl/exec/sim/stack.hpp, with src/sim/stack/mmap.cpp and
-- src/sim/stack/malloc.cpp, of which a build takes one. The calls of the system are parameters, and the
-- log of those that were made is part of what is returned.
pub mod Sizes
mod Tests
use serious_execution_librar.Prelude.{
  ℕ, ◌+◌, ◌-◌, ◌*◌, ◌/◌, ◌%◌, Bool, true, false, Option, none, some, List, [], ◌∷◌, ◌++◌, ◌==◌,
  if◌then◌else◌,
}

-- `none` is `MAP_FAILED` or a null pointer, and false a result of -1.
pub record System : Type 0 where
  pub mmap : ℕ → Option ℕ
  pub mprotect : ℕ → ℕ → Bool
  pub munmap : ℕ → ℕ → Bool
  pub malloc : ℕ → Option ℕ

pub data Syscall : Type 0 where
  mmaps : ℕ → Syscall
  mprotects munmaps : ℕ → ℕ → Syscall
  mallocs frees : ℕ → Syscall

pub data Error : Type 0 where
  invalid_argument not_enough_memory errno : Error

-- `mem_` as the address and the number of its bytes.
pub record Stack : Type 0 where
  pub address : ℕ
  pub size : ℕ
  pub prot_offset : ℕ

-- What `allocate` does: a stack, an error, or `PANIC`.
pub data Allocated : Type 0 where
  allocated : Stack → Allocated
  failed : Error → Allocated
  panicked : Allocated

-- `std::size_t`.
abbrev pub size_t : ℕ
size_t = 18446744073709551616

pub ceil_div : ℕ → ℕ → ℕ
ceil_div value divisor = ((value + divisor + (size_t - 1)) % size_t) / divisor

-- The sizes of `user_page()` and `unsafe_prot_page()`.
pub user_size : Stack → ℕ
user_size s = s.size - s.prot_offset

abbrev empty_stack : Stack → Stack
empty_stack s = record s { address = 0; size = 0 }

module _ (os : System) where
  -- src/sim/stack/mmap.cpp: what is left is the error code, none for success, and the stack.
  pub deallocate_mmap : Stack → Option Error × Stack × List Syscall
  deallocate_mmap s = if s.size == 0 then (some invalid_argument, empty_stack s, []) else (
    if os.munmap s.address s.size then none else some errno,
    empty_stack s,
    munmaps s.address s.size ∷ [],
  )

  -- After `mprotect`, whose log is `calls`.
  abbrev protected : Stack → List Syscall → Bool → Allocated × List Syscall
  protected s calls true = (allocated s, calls)
  protected s calls false = elim (deallocate_mmap s).0 [
    | none ↦ (failed errno, calls ++ (deallocate_mmap s).2)
    | some e ↦ (panicked, calls ++ (deallocate_mmap s).2)
  ]

  pub allocate_mmap : ℕ → ℕ → Allocated × List Syscall
  unfolding ceil_div deallocate_mmap
  allocate_mmap page_size at_least_bytes =
      if at_least_bytes == 0
      then (failed invalid_argument, [])
      else let size_bytes : ℕ =
          (((ceil_div at_least_bytes page_size + 1) % size_t) * page_size) % size_t in
        let prot_offset : ℕ = (1 * page_size) % size_t in
        elim (os.mmap size_bytes) [
          | none ↦ (failed errno, mmaps size_bytes ∷ [])
          | some bytes ↦
              protected (record { address = bytes; size = size_bytes; prot_offset = prot_offset })
                (mmaps size_bytes ∷ mprotects bytes prot_offset ∷ [])
                (os.mprotect bytes prot_offset)
        ]

  -- src/sim/stack/malloc.cpp.
  pub deallocate_malloc : Stack → Option Error × Stack × List Syscall
  deallocate_malloc s =
      if s.size == 0
      then (some invalid_argument, empty_stack s, [])
      else (none, empty_stack s, frees s.address ∷ [])

  pub allocate_malloc : ℕ → ℕ → Allocated × List Syscall
  unfolding ceil_div
  allocate_malloc page_size at_least_bytes =
      if at_least_bytes == 0
      then (failed invalid_argument, [])
      else let size_bytes : ℕ = (ceil_div at_least_bytes page_size * page_size) % size_t in
        elim (os.malloc size_bytes) [
          | none ↦ (failed not_enough_memory, mallocs size_bytes ∷ [])
          | some bytes ↦ (
            allocated (record { address = bytes; size = size_bytes; prot_offset = 0 }),
            mallocs size_bytes ∷ [],
          )
        ]
