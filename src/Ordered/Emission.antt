-- ===== src/Ordered/Emission.antt =====
-- The order of the emissions of include/sl/exec/algo/sync/detail/parallel.hpp, `emit_in_order`.
use serious_execution_librar.Prelude.{
  ℕ, zero, suc, ◌≤◌, ◌≡◌, refl, Bool, not, Option, none, some, List, [], ◌∷◌, ◌++◌, arith, ◌==◌,
  ltb, bit, count, count_if, count_if-append, if◌then◌else◌, sym, ap, ◌∙◌, Bool-cases, map,
  append_assoc, append-nil, inl, inr, subst,
}
use serious_execution_librar.Ordered.{
  get_connection_ordering, Emitted, orderings, emit_one, emit_each, emit_in_order,
}

-- Every key is at most the next one.
abbrev pub Ascending : List ℕ → Type 0
Ascending [] = Unit {0}
Ascending (x ∷ []) = Unit {0}
Ascending (x ∷ y ∷ ys) = (x ≤ y) × Ascending (y ∷ ys)

abbrev pub key : ℕ × ℕ → ℕ
key p = p.0

abbrev pub index : ℕ × ℕ → ℕ
index p = p.1

module _ (stable_sort : List (ℕ × ℕ) → List (ℕ × ℕ)) (connections : ℕ → Option ℕ) where
  -- The pairs that do not carry the ordering of their index.
  abbrev wrong : ℕ × ℕ → Bool
  wrong p = not (key p == get_connection_ordering (connections (index p)))

  none_wrong : (n : ℕ) → count_if wrong (orderings stable_sort connections n) ≡ 0
  unfolding orderings
  none_wrong zero = refl
  none_wrong (suc n) = ground (
    arith,
    none_wrong n,
    count_if-append wrong (orderings stable_sort connections n)
        ((get_connection_ordering (connections n), n) ∷ []),
  )

  each_once :
      (n i : ℕ) → count_if (λ p. index p == i) (orderings stable_sort connections n) ≡ bit (ltb i n)
  unfolding orderings
  each_once zero i = ground arith
  each_once (suc n) i = ground (
    arith,
    each_once n i,
    count_if-append (λ p. index p == i) (orderings stable_sort connections n)
        ((get_connection_ordering (connections n), n) ∷ []),
  )

  keys_are_orderings :
      (ps : List (ℕ × ℕ))
      → count_if wrong ps ≡ 0
      → map (λ i. get_connection_ordering (connections i)) (map index ps) ≡ map key ps
  keys_are_orderings [] e = refl
  keys_are_orderings (p ∷ ps) e = elim (Bool-cases (wrong p)) [
    | inl bad ↦ absurd (ground (arith))
    | inr good ↦
        let head : get_connection_ordering (connections (index p)) ≡ key p = ground (arith, good) in
        let tail = keys_are_orderings ps (ground (arith, e)) in
        ap (λ (x : ℕ). x ∷ map (λ i. get_connection_ordering (connections i)) (map index ps)) head
        ∙ ap (λ (l : List ℕ). key p ∷ l) tail
  ]

  emissions_lem :
      (ps : List (ℕ × ℕ)) (s : Emitted)
      → (emit_each stable_sort connections ps s).emissions ≡ s.emissions ++ map index ps
  unfolding emit_each emit_one
  emissions_lem [] s = sym (append-nil s.emissions)
  emissions_lem (p ∷ ps) s =
      emissions_lem ps (emit_one stable_sort connections p.1 s)
      ∙ append_assoc s.emissions (p.1 ∷ []) (map index ps)

  count-map : (i : ℕ) (ps : List (ℕ × ℕ)) → count i (map index ps) ≡ count_if (λ p. index p == i) ps
  count-map i [] = refl
  count-map i (p ∷ ps) = ground (arith, count-map i ps)

  maybe_result_lem :
      (i : ℕ) (ps : List (ℕ × ℕ)) (s : Emitted)
      → (emit_each stable_sort connections ps s).maybe_result i
        ≡ (if ltb 0 (count_if (λ p. index p == i) ps) then some i else s.maybe_result i)
  unfolding emit_each emit_one
  maybe_result_lem i [] s = ground arith
  maybe_result_lem i (p ∷ ps) s =
      ground (arith, maybe_result_lem i ps (emit_one stable_sort connections p.1 s))

  -- With a sort that rearranges its argument in ascending order of keys: each of the `n` connections
  -- is emitted exactly once and no other, in ascending order of their orderings, and each handle is
  -- kept at the index of its own connection.
  pub emit_in_order_lem :
      ((xs : List (ℕ × ℕ)) (f : ℕ × ℕ → Bool) → count_if f (stable_sort xs) ≡ count_if f xs)
      → ((xs : List (ℕ × ℕ)) → Ascending (map key (stable_sort xs)))
      → (n : ℕ)
      → ((i : ℕ) → count i (emit_in_order stable_sort connections n).emissions ≡ bit (ltb i n))
        × Ascending (
            map
              (λ i. get_connection_ordering (connections i))
              (emit_in_order stable_sort connections n).emissions)
        × ((i : ℕ)
            → (emit_in_order stable_sort connections n).maybe_result i
              ≡ (if ltb i n then some i else none))
  unfolding emit_in_order
  emit_in_order_lem rearranges sorts n = (
    λ i. ap (count i) (emissions_lem sorted nothing) ∙ count-map i sorted ∙ once i,
    subst Ascending
        (sym (
          ap (map (λ (i : ℕ). get_connection_ordering (connections i)))
            (emissions_lem sorted nothing)
          ∙ keys_are_orderings sorted (rearranges pairs wrong ∙ none_wrong n)))
        (sorts pairs),
    λ i.
        maybe_result_lem i sorted nothing
        ∙ ap (λ (c : ℕ). if ltb 0 c then some i else none) (once i)
        ∙ ground arith,
  )
    where
      pairs : List (ℕ × ℕ)
      pairs = orderings stable_sort connections n

      sorted : List (ℕ × ℕ)
      sorted = stable_sort pairs

      nothing : Emitted
      nothing = record { emissions = []; maybe_result = λ i. none }

      once : (i : ℕ) → count_if (λ (p : ℕ × ℕ). index p == i) sorted ≡ bit (ltb i n)
      once i = rearranges pairs (λ p. index p == i) ∙ each_once n i
