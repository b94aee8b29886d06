-- ===== src/Race/Box/Ownership.antt =====
-- Who deletes the connection of `any`, `all` and `select` of include/sl/exec/algo/.
use serious_execution_librar.Prelude.{
  ℕ, ◌<◌, ◌≤◌, ◌≡◌, ◌≢◌, ◌+◌, ◌^◌, ◌++◌, Bool, true, false, Option, none, some, List, [], ◌∷◌, refl,
  arith, bit, ap, ◌∙◌, if◌then◌else◌, subst, map,
}
use serious_execution_librar.Parallel.{initial, execute_all, Effect, try_cancel, delete_this}
use serious_execution_librar.Race.{finished}
use serious_execution_librar.Race.Invariant.{finished_lem}
use serious_execution_librar.Race.Group.{Group, initial_group, Reach, start, later}
use serious_execution_librar.Race.Group.Effects.{
  expected, cancelled, deleted, up_to, without, inv, group_lem,
}
use serious_execution_librar.Race.Box.{
  Pointer, owns, null_pointer, gone, Box, subscribe, release, destroy, Life, subscribed, emitted,
  moves, destroys,
}

-- How often `delete_this` was called.
abbrev pub deletions : List Effect → ℕ
deletions [] = 0
deletions (delete_this ∷ es) = 1 + deletions es
deletions (try_cancel i ∷ es) = deletions es

deletions-cancelled :
    (is : List ℕ) (es : List Effect) → deletions (map try_cancel is ++ es) ≡ deletions es
deletions-cancelled [] es = refl
deletions-cancelled (i ∷ is) es = deletions-cancelled is es

deletions-expected :
    {I O : Type 0} (n : ℕ) (g : Group I O)
    → g.race.deletes ≤ 1
    → deletions (expected n g) ≡ (if g.emitted then g.race.deletes else 0)
deletions-expected n g few = by_emitted g.emitted
  where
    of_deleted : (k : ℕ) → k ≤ 1 → deletions (deleted k) ≡ k
    of_deleted k le = ground (arith, le)

    of_group : (is : List ℕ) → deletions (cancelled n is ++ deleted g.race.deletes) ≡ g.race.deletes
    of_group [] = of_deleted g.race.deletes few
    of_group (i ∷ is) =
        deletions-cancelled (without i (up_to n)) (deleted g.race.deletes)
        ∙ of_deleted g.race.deletes few

    by_emitted :
        (b : Bool)
        → deletions (if b then cancelled n g.race.cancels ++ deleted g.race.deletes else [])
          ≡ (if b then g.race.deletes else 0)
    by_emitted true = of_group g.race.cancels
    by_emitted false = refl

abbrev pub is_gone : Pointer → Bool
is_gone gone = true
is_gone _ = false

module _ {I O : Type 0} (leads : I → Bool) (out : ℕ → I → O) (ending : (ℕ → Option I) → I → O)
    (n : ℕ) where
  -- What the box has done: nothing after an emission, and the group nothing before it.
  record Owned (e : Bool) (b : Box I O) : Type 0 where
    reached : Reach leads out ending n b.group
    still : e ≡ false → b.group ≡ initial_group
    pointer : e ≡ true → b.connection ≢ owns
    held : e ≡ false → b.connection ≢ null_pointer
    by_box : b.deletes ≡ (if e then 0 else bit (is_gone b.connection))

  release-Owned : (b c : Box I O) → Owned false b → release b ≡ some c → Owned true c
  unfolding release
  release-Owned b c o h = by_pointer b.connection refl h
    where
      released : b.connection ≡ owns → Owned true (record b { connection = null_pointer })
      released f = record {
        reached = o.reached;
        still = λ f. absurd (cc);
        pointer = λ k g. cc;
        held = λ k. absurd (cc);
        by_box = ground (arith, o.by_box, f);
      }

      content : Option (Box I O) → Box I O
      content none = b
      content (some x) = x

      by_pointer :
          (p : Pointer)
          → b.connection ≡ p
          → (elim p [ owns ↦ some (record b { connection = null_pointer }) | _ ↦ none ]) ≡ some c
          → Owned true c
      by_pointer owns f g = subst (Owned true) (ap content g) (released f)
      by_pointer null_pointer f g = absurd (cc)
      by_pointer gone f g = absurd (cc)

  destroy-Owned : (e : Bool) (b : Box I O) → Owned e b → b.connection ≢ gone → Owned e (destroy b)
  unfolding destroy
  destroy-Owned e b o h = by_pointer b.connection refl
    where
      by_pointer :
          (p : Pointer)
          → b.connection ≡ p
          → Owned e (elim p [
            | owns ↦ record b { connection = gone; deletes = b.deletes + 1 }
            | _ ↦ record b { connection = gone }
          ])
      by_pointer owns f = record {
        reached = o.reached;
        still = o.still;
        pointer = λ g k. cc;
        held = λ g k. cc;
        by_box =
            elim e as (λ x. e ≡ x → b.deletes + 1 ≡ (if x then 0 else bit true)) [
              | true ↦ λ g. absurd (o.pointer g f)
              | false ↦ λ g. ground (arith, o.by_box, f, g)
            ]
              refl;
      }
      by_pointer null_pointer f = record {
        reached = o.reached;
        still = o.still;
        pointer = λ g k. cc;
        held = λ g k. cc;
        by_box =
            elim e as (λ x. e ≡ x → b.deletes ≡ (if x then 0 else bit true)) [
              | true ↦ λ g. ground (arith, o.by_box, g)
              | false ↦ λ g. absurd (o.held g f)
            ]
              refl;
      }
      by_pointer gone f = absurd (h f)

  Life-Owned : {e : Bool} {b : Box I O} → Life leads out ending n e b → Owned e b
  unfolding subscribe
  Life-Owned subscribed = record {
    reached = start;
    still = λ f. refl;
    pointer = λ f. absurd (cc);
    held = λ f h. cc;
    by_box = refl;
  }
  Life-Owned (emitted {b} {c} l h) = release-Owned b c (Life-Owned l) h
  Life-Owned (moves l st) =
      let o = Life-Owned l in
      record {
        reached = later o.reached st;
        still = λ f. absurd (cc);
        pointer = o.pointer;
        held = o.held;
        by_box = o.by_box;
      }
  Life-Owned (destroys {e} {b} l h) = destroy-Owned e b (Life-Owned l) h

  -- A box of `n` connections that was emitted at most once, as its own destructor and the group move in any
  -- order, once the tasks scheduled so far have run. Before an emission the connection is deleted exactly
  -- once, by the destructor of the box, when that has run. After an emission the box deletes nothing,
  -- and the group deletes the connection once at most; exactly once when the emission's task was
  -- scheduled and all inner slots are done.
  pub box_lem :
      {e : Bool} {b : Box I O}
      → 0 < n
      → n < 2 ^ 32
      → Life leads out ending n e b
      → (e ≡ false
          → b.deletes + deletions (execute_all n b.group.tasks initial).effects
            ≡ bit (is_gone b.connection))
        × (e ≡ true
            → (b.deletes ≡ 0)
              × (deletions (execute_all n b.group.tasks initial).effects ≤ 1)
              × (b.group.emitted ≡ true
                  → ((i : ℕ) → i < n → b.group.race.pcs i ≡ finished)
                  → deletions (execute_all n b.group.tasks initial).effects ≡ 1))
  unfolding initial_group
  box_lem {e} {b} positive small l = (
    λ f. ground (arith, o.by_box, f, total, idle f),
    λ f. (
      ground (arith, o.by_box, f),
      ground (arith, total, few),
      λ h over. ground (
        arith,
        total,
        h,
        (finished_lem n b.group.race positive (inv leads out ending n positive small o.reached)
            over).1,
      ),
    ),
  )
    where
      o : Owned e b
      o = Life-Owned l

      few : b.group.race.deletes ≤ 1
      few = (group_lem leads out ending n positive small o.reached).2

      total :
          deletions (execute_all n b.group.tasks initial).effects
          ≡ (if b.group.emitted then b.group.race.deletes else 0)
      total =
          ap deletions (group_lem leads out ending n positive small o.reached).0
          ∙ deletions-expected n b.group few

      idle : e ≡ false → b.group.emitted ≡ false
      idle f = ap (λ (g : Group I O). g.emitted) (o.still f)
