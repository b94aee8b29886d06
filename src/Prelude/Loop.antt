-- ===== src/Prelude/Loop.antt =====
-- A `while (true)` with `break`, on fuel, and the rule that proves it total and correct at once.
use Prim.Native.Nat.{ℕ, zero, suc, ◌<◌}
use mathlib.Core.Path.{◌≡◌, refl, subst}
use mathlib.Core.Option.{Option, none, some, some-injective}
use native.Mathlib.Omega.{arith}

-- A round either breaks with a state or goes on with one.
pub data Turn {ℓ} (S : Type ℓ) : Type ℓ where
  stop : S → Turn S
  again : S → Turn S

-- `none` means that the fuel ran out.
unfoldable pub loop {ℓ} : {S : Type ℓ} → ℕ → (S → Turn S) → S → Option S
loop zero body s = none
loop (suc fuel) body s = elim (body s) [ stop t ↦ some t | again t ↦ loop fuel body t ]

-- A round from `s` keeps `P` and lowers the measure, or breaks with `Q`.
abbrev pub Outcome {ℓ κ} :
    {S : Type ℓ} → (S → Type κ) → (S → Type κ) → (S → ℕ) → S → Turn S → Type κ
Outcome P Q measure s (stop t) = Q t
Outcome P Q measure s (again t) = P t × (measure t < measure s)

module _ {ℓ κ} {S : Type ℓ} (P Q : S → Type κ) (measure : S → ℕ) (body : S → Turn S)
    (round : (s : S) → P s → Outcome P Q measure s (body s)) where
  -- With a measure below the fuel the loop breaks, and then `Q` holds.
  pub loop_lem :
      (fuel : ℕ) (s : S) → measure s < fuel → P s → (t : S) × (loop fuel body s ≡ some t) × Q t
  unfolding loop
  loop_lem zero s h p = absurd (omega arith)
  loop_lem (suc fuel) s h p = go (λ t. loop_lem fuel t) (body s) (round s p)
    where
      go :
          ((t : S) → measure t < fuel → P t → (u : S) × (loop fuel body t ≡ some u) × Q u)
          → (turn : Turn S) → Outcome P Q measure s turn
          → (t : S) × (elim turn [ stop t ↦ some t | again t ↦ loop fuel body t ] ≡ some t) × Q t
      go next (stop t) q = (t, refl, q)
      go next (again t) (p', lower) = next t (omega arith) p'

-- The state that a round ends in, either way, satisfies `P`.
abbrev pub Kept {ℓ κ} : {S : Type ℓ} → (S → Type κ) → Turn S → Type κ
Kept P (stop t) = P t
Kept P (again t) = P t

module _ {ℓ κ} {S : Type ℓ} (P : S → Type κ) (body : S → Turn S)
    (round : (s : S) → P s → Kept P (body s)) where
  -- What every round keeps holds of what the loop returns.
  pub loop_keep : (fuel : ℕ) (s t : S) → loop fuel body s ≡ some t → P s → P t
  unfolding loop
  loop_keep zero s t e p = cc
  loop_keep (suc fuel) s t e p = go (λ u. loop_keep fuel u t) (body s) (round s p) e
    where
      go :
          ((u : S) → loop fuel body u ≡ some t → P u → P t)
          → (turn : Turn S) → Kept P turn
          → elim turn [ stop u ↦ some u | again u ↦ loop fuel body u ] ≡ some t
          → P t
      go next (stop u) q f = subst P (some-injective _ _ f) q
      go next (again u) q f = next u f q
