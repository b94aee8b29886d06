-- ===== src/Stack/Tests.antt =====
-- Stacks of include/sl/exec/sim/stack.hpp on a system that gives the address 8192.
use serious_execution_librar.Prelude.{
  ◌+◌, ◌<◌, ◌≤◌, ◌≡◌, ◌⊎◌, inl, refl, true, false, some, [], ◌∷◌, arith,
}
use serious_execution_librar.Stack.{
  System, mmaps, mprotects, munmaps, errno, Stack, allocated, failed, user_size, allocate_mmap,
}
use serious_execution_librar.Stack.Sizes.{allocate_bounds}

abbrev os : System
os = record {
  mmap = λ length. some 8192;
  mprotect = λ addr len. true;
  munmap = λ addr length. true;
  malloc = λ size. some 8192;
}

abbrev two_pages : Stack
two_pages = record { address = 8192; size = 12288; prot_offset = 4096 }

two_pages-allocated : (allocate_mmap os 4096 5000).0 ≡ allocated two_pages
unfolding allocate_mmap
two_pages-allocated = refl

allocate_bounds_example :
    (5000 ≤ user_size two_pages)
    × (user_size two_pages < 5000 + 4096)
    × ((two_pages.prot_offset ≡ 4096) ⊎ (two_pages.prot_offset ≡ 0))
allocate_bounds_example =
    allocate_bounds 4096 5000 (omega arith) (omega arith) os (omega arith) two_pages
      (inl two_pages-allocated)

-- The largest number of bytes is given one page, which is the protected one.
too_large :
    (allocate_mmap os 4096 18446744073709551615).0
    ≡ allocated (record { address = 8192; size = 4096; prot_offset = 4096 })
unfolding allocate_mmap
too_large = refl

-- What was mapped is unmapped if it cannot be protected.
recovered :
    allocate_mmap (record os { mprotect = λ addr len. false }) 4096 1
    ≡ (failed errno, mmaps 8192 ∷ mprotects 8192 4096 ∷ munmaps 8192 8192 ∷ [])
unfolding allocate_mmap
recovered = refl
