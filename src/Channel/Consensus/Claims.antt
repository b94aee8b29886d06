-- ===== src/Channel/Consensus/Claims.antt =====
-- What a successful claim of flags in `try_fulfill_impl` of include/sl/exec/algo/sync/channel.hpp
-- changes, and the invariant on flags and calls.
use serious_execution_librar.Prelude.{
  ℕ, ◌+◌, ◌≤◌, ◌≡◌, inl, inr, Bool, true, false, Option, none, some, arith, ◌==◌, bit, count_if,
  update, sym, ap, ◌&&◌, Bool-cases,
}
use mathlib.Core.Option.{some-injective}
use serious_execution_librar.Channel.{
  Call, Channel, kcas_1, kcas_2, is_same_select, send_value, recv_value, claim,
}

-- The call completes a case of select `a` for which the channel claimed the flag. The families give
-- the select of each node.
abbrev pub wins : {V : Type 0} → (ℕ → Option ℕ) → (ℕ → Option ℕ) → ℕ → Call V → Bool
wins ss rs a (send_value true i) = is_same_select (some a) (ss i)
wins ss rs a (recv_value true j v) = is_same_select (some a) (rs j)
wins ss rs a _ = false

pub record Consensus {Q V : Type 0} (ss rs : ℕ → Option ℕ) (c : Channel Q V) : Type 0 where
  pub send_select : (i : ℕ) → (c.sends i).select_done ≡ ss i
  pub recv_select : (j : ℕ) → (c.recvs j).select_done ≡ rs j
  pub claimed : (a : ℕ) → count_if (wins ss rs a) c.log ≤ c.done a
  pub flag : (a : ℕ) → c.done a ≤ 1

same_at : (f g : ℕ → ℕ) → ◌≡◌ {A = Option (ℕ → ℕ)} (some f) (some g) → (a : ℕ) → f a ≡ g a
same_at f g e a = ap (λ (h : ℕ → ℕ). h a) (some-injective f g e)

kcas_1_lem :
    (x : ℕ) (done done' : ℕ → ℕ)
    → kcas_1 done x ≡ some done'
    → (done x ≡ 0) × ((a : ℕ) → done' a ≡ update done x 1 a)
kcas_1_lem x done done' h = elim (Bool-cases (done x == 0)) [
  | inl t ↦ (ground arith, λ a. sym (same_at (update done x 1) done' (rw t at h) a))
  | inr f ↦ absurd (ground arith)
]

kcas_2_lem :
    (x y : ℕ) (done done' : ℕ → ℕ)
    → kcas_2 done x y ≡ some done'
    → (done x ≡ 0) × (done y ≡ 0) × ((a : ℕ) → done' a ≡ update (update done x 1) y 1 a)
kcas_2_lem x y done done' h = elim (Bool-cases (done x == 0 && done y == 0)) [
  | inl t ↦ (
    ground arith,
    ground arith,
    λ a. sym (same_at (update (update done x 1) y 1) done' (rw t at h) a),
  )
  | inr f ↦ absurd (ground arith)
]

-- A successful claim raises the flags of both selects from 0.
pub claim_lem :
    (d e : Option ℕ) (done done' : ℕ → ℕ)
    → claim d e done ≡ some done'
    → ((a : ℕ) → done a ≤ 1)
    → (a : ℕ)
    → (done' a ≤ 1)
      × (bit (is_same_select (some a) d) + bit (is_same_select (some a) e) + done a ≤ done' a)
unfolding claim
claim_lem none none done done' h small a = ground (arith, same_at done done' h a, small a)
claim_lem none (some y) done done' h small a =
    let (zero_y, value) = kcas_1_lem y done done' h in ground (arith, value a, small a)
claim_lem (some x) none done done' h small a =
    let (zero_x, value) = kcas_1_lem x done done' h in ground (arith, value a, small a)
claim_lem (some x) (some y) done done' h small a = elim (Bool-cases (x == y)) [
  | inl same ↦ absurd (ground arith)
  | inr other ↦
      let (zero_x, zero_y, value) = kcas_2_lem x y done done' (ground arith) in
      ground (arith, value a, small a)
]
