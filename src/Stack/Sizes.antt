-- ===== src/Stack/Sizes.antt =====
-- The sizes of the stacks of include/sl/exec/sim/stack.hpp, and the calls that make and free them.
use serious_execution_librar.Prelude.{
  ℕ, ◌+◌, ◌-◌, ◌*◌, ◌%◌, ◌<◌, ◌≤◌, ◌≡◌, ◌⊎◌, inl, inr, some, [], ◌∷◌, arith,
}
use native.Mathlib.Nat.{div-add-mod', mod-lt}
use serious_execution_librar.Stack.{
  System, mmaps, mprotects, munmaps, invalid_argument, Stack, allocated, size_t, ceil_div,
  user_size, deallocate_mmap, allocate_mmap, allocate_malloc,
}

module _ (page_size at_least_bytes : ℕ) (p : 0 < page_size) (n : 0 < at_least_bytes) where
  -- `ceil_div` times the divisor is the first multiple of it that is large enough.
  ceil_div_bounds :
      at_least_bytes + page_size ≤ size_t
      → (at_least_bytes ≤ ceil_div at_least_bytes page_size * page_size)
        × (ceil_div at_least_bytes page_size * page_size < at_least_bytes + page_size)
  unfolding ceil_div
  ceil_div_bounds fits =
      let x : ℕ = (at_least_bytes + page_size + (size_t - 1)) % size_t in
      let whole : x ≡ at_least_bytes + page_size - 1 = omega arith in
      (
        omega (arith, whole, div-add-mod' x page_size, mod-lt x p),
        omega (arith, whole, div-add-mod' x page_size),
      )

  ceil_div_small :
      at_least_bytes + page_size ≤ size_t
      → ceil_div at_least_bytes page_size ≤ ceil_div at_least_bytes page_size * page_size
  ceil_div_small fits = grind arith

  module _ (os : System) (fits : at_least_bytes + 2 * page_size ≤ size_t) where
    size_bytes_lem :
        (((ceil_div at_least_bytes page_size + 1) % size_t) * page_size) % size_t
        ≡ ceil_div at_least_bytes page_size * page_size + page_size
    size_bytes_lem =
        let q : ℕ = ceil_div at_least_bytes page_size in
        let small : (q + 1) % size_t ≡ q + 1 =
          omega (arith, ceil_div_small (omega arith), ceil_div_bounds (omega arith)) in
        let distributed : (q + 1) * page_size ≡ q * page_size + page_size = grind arith in
        rw (small, distributed) (omega (arith, ceil_div_bounds (omega arith)))

    -- A stack that either `allocate` gives has a user page of at least the bytes asked for, by less than
    -- a page more, and a protected page of one page or none, provided that the number of bytes is
    -- not within two pages of the largest `std::size_t`.
    pub allocate_bounds :
        (s : Stack)
        → ((allocate_mmap os page_size at_least_bytes).0 ≡ allocated s)
          ⊎ ((allocate_malloc os page_size at_least_bytes).0 ≡ allocated s)
        → (at_least_bytes ≤ user_size s)
          × (user_size s < at_least_bytes + page_size)
          × ((s.prot_offset ≡ page_size) ⊎ (s.prot_offset ≡ 0))
    unfolding allocate_mmap allocate_malloc user_size
    allocate_bounds s (inl e) = (
      ground (arith, size_bytes_lem, ceil_div_bounds (omega arith)),
      ground (arith, size_bytes_lem, ceil_div_bounds (omega arith)),
      inl (ground arith),
    )
    allocate_bounds s (inr e) = (
      ground (arith, ceil_div_bounds (omega arith)),
      ground (arith, ceil_div_bounds (omega arith)),
      inr (ground arith),
    )

    -- Under the same condition, a stack that `allocate` of mmap.cpp gives is what was mapped, with its first page
    -- protected. Its `deallocate` unmaps exactly that, and a second one is refused without a call.
    pub allocate-deallocate :
        (s : Stack)
        → (allocate_mmap os page_size at_least_bytes).0 ≡ allocated s
        → ((allocate_mmap os page_size at_least_bytes).1
            ≡ mmaps s.size ∷ mprotects s.address page_size ∷ [])
          × (os.mmap s.size ≡ some s.address)
          × ((deallocate_mmap os s).2 ≡ munmaps s.address s.size ∷ [])
          × ((deallocate_mmap os (deallocate_mmap os s).1).0 ≡ some invalid_argument)
          × ((deallocate_mmap os (deallocate_mmap os s).1).2 ≡ [])
    unfolding allocate_mmap deallocate_mmap
    allocate-deallocate s e =
        let bounds : at_least_bytes ≤ ceil_div at_least_bytes page_size * page_size =
          (ceil_div_bounds (omega arith)).0 in
        (
          ground (arith, size_bytes_lem),
          ground (arith, size_bytes_lem),
          ground (arith, size_bytes_lem),
          ground (arith, size_bytes_lem),
          ground (arith, size_bytes_lem),
        )
