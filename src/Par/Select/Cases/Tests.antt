-- ===== src/Par/Select/Cases/Tests.antt =====
-- A select of include/sl/exec/algo/sync/select.hpp with two channels and a default.
use serious_execution_librar.Prelude.{
  ℕ, ◌+◌, ◌<◌, ◌≡◌, ◌⊎◌, inr, refl, true, false, some, [], ◌∷◌, arith, if◌then◌else◌, ◌==◌,
}
use serious_execution_librar.Slot.{value}
use serious_execution_librar.Race.{count, lead, skip, claim_for}
use serious_execution_librar.Ordered.{get_connection_ordering, max_ordering}
use serious_execution_librar.Ordered.Insertion.{sort, rearranges, sorts}
use serious_execution_librar.Par.Select.Cases.{
  Offer, waits, hands, SelectCase, Cases, start_case, case_, default_, emit,
}
use serious_execution_librar.Par.Select.Cases.Trying.{default_lem}

abbrev receiving : ℕ → Offer ℕ → SelectCase ℕ ℕ
receiving address offer = record { ordering = some address; offer = offer; functor = λ v. v + 100 }

-- The second channel lies at a smaller address.
abbrev both : Cases ℕ ℕ
both = case_ (receiving 20 (hands 2)) (start_case 0 (receiving 30 (hands 1)))

abbrev neither : Cases ℕ ℕ
neither = case_ (receiving 20 waits) (start_case 0 (receiving 30 waits))

-- The case that was declared second is taken.
taken_both : (emit sort (default_ 0 (λ v. 7) both)).calls ≡ value 102 ∷ []
unfolding emit default_ case_ start_case sort count lead skip claim_for
taken_both = refl

taken_neither : (emit sort (default_ 0 (λ v. 7) neither)).calls ≡ value 7 ∷ []
unfolding emit default_ case_ start_case sort count lead
taken_neither = refl

addresses : (i : ℕ) → i < both.size → get_connection_ordering (both.cases i).ordering < max_ordering
unfolding case_ start_case get_connection_ordering
addresses i b = ground arith

channels :
    (i : ℕ)
    → i < both.size
    → ((both.cases i).offer ≡ waits) ⊎ ((v : ℕ) × ((both.cases i).offer ≡ hands v))
unfolding case_ start_case
channels i b =
    elim (1 == i)
      as (λ t.
        ((if t then receiving 20 (hands 2) else receiving 30 (hands 1)).offer ≡ waits)
        ⊎ ((v : ℕ) × ((if t then receiving 20 (hands 2) else receiving 30 (hands 1)).offer
              ≡ hands v))) [ true ↦ inr (2, refl) | false ↦ inr (1, refl) ]

default_lem_example :
    ((j : ℕ) × (v : ℕ) × (j < both.size)
      × ((both.cases j).offer ≡ hands v)
      × ((emit sort (default_ 0 (λ v. 7) both)).calls ≡ value ((both.cases j).functor v) ∷ [])
      × ((emit sort (default_ 0 (λ v. 7) both)).cancels ≡ j ∷ [])
      × ((k : ℕ)
          → k < both.size
          → get_connection_ordering (both.cases k).ordering
            < get_connection_ordering (both.cases j).ordering
          → (both.cases k).offer ≡ waits))
    ⊎ (((i : ℕ) → i < both.size → (both.cases i).offer ≡ waits)
        × ((emit sort (default_ 0 (λ v. 7) both)).calls ≡ value 7 ∷ [])
        × ((emit sort (default_ 0 (λ v. 7) both)).cancels ≡ both.size ∷ []))
default_lem_example = default_lem sort rearranges sorts both 0 (λ v. 7) addresses channels
