-- ===== src/Arc/Lifetime.antt =====
-- The deletion of the storage of include/sl/exec/thread/detail/arc.hpp.
use serious_execution_librar.Prelude.{
  ℕ, ◌<◌, ◌≤◌, ◌≡◌, ◌≢◌, ◌⊎◌, inl, inr, refl, ◌==◌, arith, bit, update, Bool-cases, weigh,
  weigh-update, member-le-weigh, weigh_prefix, weigh_some,
}
use serious_execution_librar.Arc.{
  Handle, unborn, holding, moved_from, destroyed, Arc, incref, decref, make_n, copy, move, destroy,
  Step, copies, moves, destroys, destroys_null, Reach, start, later,
}

abbrev pub holds : Handle → ℕ
holds holding = 1
holds h = 0

holder : (h : Handle) → 0 < holds h → h ≡ holding
holder holding some_ = refl
holder unborn some_ = absurd (omega arith)
holder moved_from some_ = absurd (omega arith)
holder destroyed some_ = absurd (omega arith)

module _ (n : ℕ) where
  record Inv (s : Arc) : Type 0 where
    counted : s.refcount ≡ weigh holds n s.handles
    bounded : s.refcount < 4294967296
    deleted : s.deletes ≡ bit (s.refcount == 0)

  Step-Inv : {s t : Arc} → Step n s t → Inv s → Inv t
  unfolding copy move destroy incref decref
  Step-Inv {s} (copies i j b c e f few) v = record {
    counted = ground (arith, v.counted, weigh-update holds n j s.handles holding);
    bounded = ground arith;
    deleted = ground (arith, v.deleted, v.counted, member-le-weigh holds n s.handles i b);
  }
  Step-Inv {s} (moves i j b c e f) v = record {
    counted = ground (
      arith,
      v.counted,
      weigh-update holds n i s.handles moved_from,
      weigh-update holds n j (update s.handles i moved_from) holding,
    );
    bounded = v.bounded;
    deleted = v.deleted;
  }
  Step-Inv {s} (destroys i b e) v = record {
    counted = ground (arith, v.counted, v.bounded, e, weigh-update holds n i s.handles destroyed);
    bounded = ground (arith, v.bounded, e);
    deleted =
        ground (arith, v.deleted, v.counted, v.bounded, e, member-le-weigh holds n s.handles i b);
  }
  Step-Inv {s} (destroys_null i b e) v = record {
    counted = ground (arith, v.counted, e, weigh-update holds n i s.handles destroyed);
    bounded = ground (arith, v.bounded, e);
    deleted = ground (arith, v.deleted, e);
  }

  Reach-Inv :
      {count : ℕ} {s : Arc} → 0 < count → count ≤ n → n < 4294967296 → Reach n count s → Inv s
  unfolding make_n
  Reach-Inv {count} c l b start = record {
    counted = omega (arith, weigh_prefix holds holding unborn count n l refl);
    bounded = omega arith;
    deleted = ground arith;
  }
  Reach-Inv c l b (later r st) = Step-Inv st (Reach-Inv c l b r)

  -- Of a value that was made with at least one handle and has had at most `n` of them, however copies, moves and
  -- destructions are interleaved: while some handle holds the storage it was not deleted, and when none
  -- does it was deleted exactly once.
  pub arc_lem :
      {count : ℕ} {s : Arc}
      → 0 < count
      → count ≤ n
      → n < 4294967296
      → Reach n count s
      → ((s.deletes ≡ 0) × ((i : ℕ) × (i < n) × (s.handles i ≡ holding)))
        ⊎ ((s.deletes ≡ 1) × ((i : ℕ) → i < n → s.handles i ≢ holding))
  arc_lem {s} c l b r = elim (Bool-cases (s.refcount == 0)) [
    | inl zero_ ↦ inr (
      ground (arith, v.deleted, zero_),
      λ i k h. ground (arith, v.counted, zero_, h, member-le-weigh holds n s.handles i k),
    )
    | inr some_ ↦ inl (
      ground (arith, v.deleted, some_),
      let (i, below, heavy) = weigh_some holds n s.handles (ground (arith, v.counted, some_)) in
          (i, below, holder (s.handles i) heavy),
    )
  ]
    where
      v : Inv s
      v = Reach-Inv c l b r
