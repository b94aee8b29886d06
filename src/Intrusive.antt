-- ===== src/Intrusive.antt =====
-- `meta::intrusive_list` and `meta::intrusive_forward_list` of the library `sl::meta`, which the
-- repository takes from outside: an interface of the operations that are called, with what they do
-- to the sequence of linked nodes. Nodes are named by numbers, as pointers name them.
use serious_execution_librar.Prelude.{
  ℕ, ◌≡◌, refl, ◌⊎◌, inl, inr, Option, none, some, List, [], ◌∷◌, ◌++◌, last?, delete,
}

pub record IntrusiveList (Q : Type 0) : Type 0 where
  pub to_list : Q → List ℕ
  pub empty : Q
  pub push_back : Q → ℕ → Q
  pub push_front : Q → ℕ → Q
  pub pop_front : Q → Option (ℕ × Q)
  pub back : Q → Option ℕ
  pub erase : Q → ℕ → Q
  pub to_list-empty : to_list empty ≡ []
  pub to_list-push_back : (q : Q) (n : ℕ) → to_list (push_back q n) ≡ to_list q ++ n ∷ []
  pub to_list-push_front : (q : Q) (n : ℕ) → to_list (push_front q n) ≡ n ∷ to_list q
  pub to_list-erase : (q : Q) (n : ℕ) → to_list (erase q n) ≡ delete n (to_list q)
  pub back_lem : (q : Q) → back q ≡ last? (to_list q)
  pub pop_front_lem :
      (q : Q)
      → ((pop_front q ≡ none) × (to_list q ≡ []))
        ⊎ ((n : ℕ) × (rest : Q) × (pop_front q ≡ some (n, rest)) × (to_list q ≡ n ∷ to_list rest))

abbrev pub split_head : List ℕ → Option (ℕ × List ℕ)
split_head [] = none
split_head (x ∷ xs) = some (x, xs)

pub split_head_lem :
    (q : List ℕ)
    → ((split_head q ≡ none) × (q ≡ []))
      ⊎ ((n : ℕ) × (rest : List ℕ) × (split_head q ≡ some (n, rest)) × (q ≡ n ∷ rest))
split_head_lem [] = inl (refl, refl)
split_head_lem (x ∷ xs) = inr (x, xs, refl, refl)

-- Plain lists meet the interface.
abbrev pub plain_list : IntrusiveList (List ℕ)
plain_list = record {
  to_list = λ q. q;
  empty = [];
  push_back = λ q n. q ++ n ∷ [];
  push_front = λ q n. n ∷ q;
  pop_front = split_head;
  back = last?;
  erase = λ q n. delete n q;
  to_list-empty = refl;
  to_list-push_back = λ q n. refl;
  to_list-push_front = λ q n. refl;
  to_list-erase = λ q n. refl;
  back_lem = λ q. refl;
  pop_front_lem = split_head_lem;
}
