-- ===== src/Prelude/Families.antt =====
-- Families `ℕ → A`: a table of objects or memory cells, with an update at one index.
use Prim.Native.Nat.{ℕ, zero, suc, ◌+◌, ◌*◌, ◌≤◌, ◌<◌}
use mathlib.Core.Logic.{inl, inr}
use mathlib.Core.Path.{◌≡◌, subst}
use native.Mathlib.Omega.{arith}
use native.Mathlib.Decide.{dec_lt}
use serious_execution_librar.Prelude.Tests.{◌==◌, ltb, bit, if◌then◌else◌, Bool-cases}

abbrev pub update {ℓ} : {A : Type ℓ} → (ℕ → A) → ℕ → A → ℕ → A
update f i a j = if i == j then a else f j

pub update_self {ℓ} : {A : Type ℓ} (f : ℕ → A) (i : ℕ) (a : A) → update f i a i ≡ a
update_self f i a = ground arith

-- The sum of a measure over the first `n` members.
module _ {ℓ} {A : Type ℓ} (weight : A → ℕ) where
  pub weigh : ℕ → (ℕ → A) → ℕ
  weigh zero f = 0
  weigh (suc n) f = weight (f n) + weigh n f

  pub weigh-update :
      (n i : ℕ) (f : ℕ → A) (a : A)
      → weigh n (update f i a) + bit (ltb i n) * weight (f i) ≡ weigh n f + bit (ltb i n) * weight a
  unfolding weigh
  weigh-update zero i f a = ground arith
  weigh-update (suc n) i f a = ground (arith, weigh-update n i f a)

  -- With at most one to count per member, a full sum leaves no member out.
  pub weigh-le : ((a : A) → weight a ≤ 1) → (n : ℕ) (f : ℕ → A) → weigh n f ≤ n
  unfolding weigh
  weigh-le at_most_one zero f = omega arith
  weigh-le at_most_one (suc n) f = omega (arith, at_most_one (f n), weigh-le at_most_one n f)

  pub weigh_full :
      ((a : A) → weight a ≤ 1)
      → (n : ℕ) (f : ℕ → A) → weigh n f ≡ n
      → (i : ℕ) → i < n
      → weight (f i) ≡ 1
  unfolding weigh
  weigh_full at_most_one zero f e i h = absurd (omega arith)
  weigh_full at_most_one (suc n) f e i h = elim (Bool-cases (i == n)) [
    | inl last ↦ ground (arith, weigh-le at_most_one n f, at_most_one (f n))
    | inr other ↦
        weigh_full at_most_one n f (omega (arith, weigh-le at_most_one n f, at_most_one (f n))) i
          (ground arith)
  ]

  pub member-le-weigh : (n : ℕ) (f : ℕ → A) (i : ℕ) → i < n → weight (f i) ≤ weigh n f
  unfolding weigh
  member-le-weigh zero f i h = absurd (omega arith)
  member-le-weigh (suc n) f i h = elim (Bool-cases (i == n)) [
    | inl last ↦ ground arith
    | inr other ↦ let below : i < n = ground arith in omega (arith, member-le-weigh n f i below)
  ]

  pub weigh_all :
      (n : ℕ) (f : ℕ → A) (k : ℕ) → ((i : ℕ) → i < n → weight (f i) ≡ k) → weigh n f ≡ n * k
  unfolding weigh
  weigh_all zero f k h = omega arith
  weigh_all (suc n) f k h =
      omega (arith, h n (omega arith), weigh_all n f k (λ i b. h i (omega arith)))

  -- Members of the same weight.
  pub weigh_same :
      (n : ℕ) (f g : ℕ → A) → ((i : ℕ) → weight (f i) ≡ weight (g i)) → weigh n f ≡ weigh n g
  unfolding weigh
  weigh_same zero f g h = omega arith
  weigh_same (suc n) f g h = omega (arith, h n, weigh_same n f g h)

  -- The first `c` members are `a`, and the others weigh nothing.
  pub weigh_prefix :
      (a b : A) (c n : ℕ)
      → c ≤ n
      → weight b ≡ 0
      → weigh n (λ i. if ltb i c then a else b) ≡ c * weight a
  unfolding weigh
  weigh_prefix a b c zero l e =
      let none : 0 ≡ c = omega arith in
      let at_zero : 0 ≡ 0 * weight a = omega arith in subst (λ k. 0 ≡ k * weight a) none at_zero
  weigh_prefix a b c (suc n) l e = elim (Bool-cases (c == suc n)) [
    | inl all ↦ ground (
      arith,
      all,
      weigh_all (suc n) (λ i. if ltb i c then a else b) (weight a) (λ i k. ground arith),
    )
    | inr less ↦ ground (arith, weigh_prefix a b c n (ground arith) e)
  ]

  -- A member that weighs something.
  pub weigh_some : (n : ℕ) (f : ℕ → A) → 0 < weigh n f → (i : ℕ) × (i < n) × (0 < weight (f i))
  unfolding weigh
  weigh_some zero f h = absurd (omega arith)
  weigh_some (suc n) f h = elim (dec_lt 0 (weight (f n))) [
    | yes some_ ↦ (n, omega arith, some_)
    | no none ↦ let (i, below, heavy) = weigh_some n f (omega arith) in (i, omega arith, heavy)
  ]
