-- ===== src/Ordered/Insertion.antt =====
-- A sort that stands in for `std::stable_sort` in the examples: insertion by the first of each pair.
use serious_execution_librar.Prelude.{
  ℕ, ◌+◌, ◌≡◌, refl, Bool, List, [], ◌∷◌, arith, ltb, bit, count_if, if◌then◌else◌, map,
}
use serious_execution_librar.Ordered.Emission.{Ascending, key}

-- A pair goes in front of the first one with a larger or equal key, and the last pair is inserted first.
insert : ℕ × ℕ → List (ℕ × ℕ) → List (ℕ × ℕ)
insert p [] = p ∷ []
insert p (q ∷ qs) = let rest = insert p qs in if ltb (key q) (key p) then q ∷ rest else p ∷ q ∷ qs

unfoldable pub sort : List (ℕ × ℕ) → List (ℕ × ℕ)
unfolding insert
sort [] = []
sort (p ∷ ps) = insert p (sort ps)

count_if-insert :
    (f : ℕ × ℕ → Bool) (p : ℕ × ℕ) (qs : List (ℕ × ℕ))
    → count_if f (insert p qs) ≡ bit (f p) + count_if f qs
unfolding insert
count_if-insert f p [] = ground arith
count_if-insert f p (q ∷ qs) = ground (arith, count_if-insert f p qs)

pub rearranges : (xs : List (ℕ × ℕ)) (f : ℕ × ℕ → Bool) → count_if f (sort xs) ≡ count_if f xs
unfolding sort
rearranges [] f = refl
rearranges (p ∷ ps) f = ground (arith, count_if-insert f p (sort ps), rearranges ps f)

Ascending-insert :
    (p : ℕ × ℕ) (qs : List (ℕ × ℕ)) → Ascending (map key qs) → Ascending (map key (insert p qs))
unfolding insert
Ascending-insert p [] h = tt
Ascending-insert p (q ∷ []) h = ground (arith, h)
Ascending-insert p (q ∷ r ∷ qs) h = ground (arith, h, Ascending-insert p (r ∷ qs) h.1)

pub sorts : (xs : List (ℕ × ℕ)) → Ascending (map key (sort xs))
unfolding sort
sorts [] = tt
sorts (p ∷ ps) = Ascending-insert p (sort ps) (sorts ps)
