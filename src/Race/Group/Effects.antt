-- ===== src/Race/Group/Effects.antt =====
-- What the tasks of a group of connections, of include/sl/exec/algo/sync/detail/parallel.hpp, do.
use serious_execution_librar.Prelude.{
  ℕ, zero, suc, ◌≡◌, refl, ◌+◌, ◌^◌, ◌<◌, ◌≤◌, Bool, true, false, not, Option, none, some, List, [],
  ◌∷◌, ◌++◌, ◌==◌, if◌then◌else◌, map, arith, length, length-append, append-nil, sym, ap, ◌∙◌,
  subst, inl, inr, Bool-cases, bit, dec_lt,
}
use serious_execution_librar.Race.{
  pending, claimed, counting, settling, finished, Race, init, lead, settle, claim_for, skip, trail,
  u32,
}
use serious_execution_librar.Race
use serious_execution_librar.Race.Invariant.{Inv, deleted_lem}
use serious_execution_librar.Race.Protocol
use serious_execution_librar.Race.Protocol.{Reach-Inv}
use serious_execution_librar.Parallel.{
  Effect, State, initial, Task, emit_task, try_cancel_beside_task, delete_this_task, execute,
  execute_all, try_cancel, delete_this, beside, serialized_emit, serialized_try_cancel_beside,
  serialized_delete_this, try_cancel_beside_impl, call_delete_this,
}
use serious_execution_librar.Race.Group.{
  Group, initial_group, schedule_try_cancel_beside, schedule_delete_this, emit_impl, scheduled,
  handle, handles, emits, Reach, start, later,
}

-- The indices below `n`, and a list without its members equal to `i`.
pub up_to : ℕ → List ℕ
up_to zero = []
up_to (suc n) = up_to n ++ n ∷ []

pub without : ℕ → List ℕ → List ℕ
without i [] = []
without i (k ∷ ks) = let rest = without i ks in if k == i then rest else k ∷ rest

without-append : (i : ℕ) (ks ls : List ℕ) → without i (ks ++ ls) ≡ without i ks ++ without i ls
unfolding without
without-append i [] ls = refl
without-append i (k ∷ ks) ls = ground (arith, without-append i ks ls)

beside-others : (n i : ℕ) → beside n i ≡ without i (up_to n)
unfolding beside up_to without
beside-others zero i = refl
beside-others (suc n) i = ground (
  arith,
  beside-others n i,
  without-append i (up_to n) (n ∷ []),
  append-nil (without i (up_to n)),
)

-- The handles of all connections are cancelled but that of the winner, the first of the list.
abbrev pub cancelled : ℕ → List ℕ → List Effect
cancelled n [] = []
cancelled n (i ∷ is) = map try_cancel (without i (up_to n))

abbrev pub deleted : ℕ → List Effect
deleted k = if k == 0 then [] else delete_this ∷ []

-- What was done outside after all the tasks of the group have run.
abbrev pub expected : {I O : Type 0} → ℕ → Group I O → List Effect
expected n g = if g.emitted then cancelled n g.race.cancels ++ deleted g.race.deletes else []

abbrev first : List ℕ → Option ℕ
first [] = none
first (i ∷ is) = some i

execute_all-append :
    (n : ℕ) (ts us : List Task) (s : State)
    → execute_all n (ts ++ us) s ≡ execute_all n us (execute_all n ts s)
unfolding execute_all
execute_all-append n [] us s = refl
execute_all-append n (t ∷ ts) us s = execute_all-append n ts us (execute n t s)

-- The state of the parallel connection when the tasks of the group have run.
record Done {I O : Type 0} (n : ℕ) (g : Group I O) (s : State) : Type 0 where
  arrived : s.cancel_handles ≡ g.emitted
  request : s.cancel_request ≡ (if g.emitted then none else first g.race.cancels)
  deletion : g.emitted ≡ false → s.delete_requested ≡ not (g.race.deletes == 0)
  effects : s.effects ≡ expected n g

module _ {I O : Type 0} (n : ℕ) (g : Group I O) (s : State) (d : Done n g s) where
  emit-Done : g.emitted ≡ false → Done n (emit_impl g) (execute n emit_task s)
  unfolding emit_impl execute serialized_emit try_cancel_beside_impl call_delete_this
  emit-Done e = by_cancels g.race.cancels refl
    where
      by_cancels :
          (is : List ℕ) → g.race.cancels ≡ is → Done n (emit_impl g) (execute n emit_task s)
      by_cancels [] c = record {
        arrived = ground (arith, d.arrived, d.request, d.deletion e, e, c);
        request = ground (arith, d.arrived, d.request, d.deletion e, e, c);
        deletion = λ f. absurd (cc);
        effects = ground (arith, d.effects, d.request, d.deletion e, e, c);
      }
      by_cancels (i ∷ is) c = record {
        arrived = ground (arith, d.arrived, d.request, d.deletion e, e, c);
        request = ground (arith, d.arrived, d.request, d.deletion e, e, c);
        deletion = λ f. absurd (cc);
        effects = elim (Bool-cases (g.race.deletes == 0)) [
          | inl zero_ ↦ ground (
            arith,
            d.effects,
            d.request,
            d.deletion e,
            e,
            c,
            zero_,
            append-nil (map try_cancel (without i (up_to n))),
            beside-others n i,
          )
          | inr one_ ↦
              ground (arith, d.effects, d.request, d.deletion e, e, c, one_, beside-others n i)
        ];
      }

  -- The race goes on to `t` without a task.
  idle-Done :
      (t : Race I O)
      → t.cancels ≡ g.race.cancels
      → t.deletes ≡ g.race.deletes
      → Done n (record g { race = t }) s
  idle-Done t c e = record {
    arrived = d.arrived;
    request = ground (arith, d.request, c);
    deletion = λ f. ground (arith, d.deletion f, e);
    effects = ground (arith, d.effects, c, e);
  }

  cancel-Done :
      (i : ℕ) (t : Race I O)
      → g.race.cancels ≡ []
      → t.cancels ≡ i ∷ []
      → g.race.deletes ≡ 0
      → t.deletes ≡ 0
      → Done n
          (record (schedule_try_cancel_beside i g) { race = t })
          (execute n (try_cancel_beside_task i) s)
  unfolding schedule_try_cancel_beside execute serialized_try_cancel_beside try_cancel_beside_impl
  cancel-Done i t none_ c zero_ e = elim (Bool-cases g.emitted) [
    | inl yes_ ↦ record {
      arrived = ground (arith, d.arrived, d.request, none_, yes_);
      request = ground (arith, d.arrived, d.request, none_, yes_);
      deletion = λ f. absurd (cc);
      effects = ground (
        arith,
        d.arrived,
        d.request,
        d.effects,
        none_,
        c,
        zero_,
        e,
        yes_,
        append-nil (map try_cancel (without i (up_to n))),
        beside-others n i,
      );
    }
    | inr no_ ↦ record {
      arrived = ground (arith, d.arrived, d.request, none_, no_);
      request = ground (arith, d.arrived, d.request, none_, no_, c);
      deletion = λ f. ground (arith, d.arrived, d.request, d.deletion f, none_, no_, zero_, e);
      effects = ground (arith, d.arrived, d.request, d.effects, none_, c, zero_, e, no_);
    }
  ]

  delete-Done :
      (t : Race I O)
      → t.cancels ≡ g.race.cancels
      → g.race.deletes ≡ 0
      → t.deletes ≡ 1
      → Done n (record (schedule_delete_this g) { race = t }) (execute n delete_this_task s)
  unfolding schedule_delete_this execute serialized_delete_this call_delete_this
  delete-Done t c zero_ e = elim (Bool-cases g.emitted) [
    | inl yes_ ↦ record {
      arrived = ground (arith, d.arrived, yes_);
      request = ground (arith, d.arrived, d.request, yes_);
      deletion = λ f. absurd (cc);
      effects =
          ground (
            arith,
            d.arrived,
            d.effects,
            c,
            zero_,
            e,
            yes_,
            append-nil (cancelled n g.race.cancels),
          );
    }
    | inr no_ ↦ record {
      arrived = ground (arith, d.arrived, no_);
      request = ground (arith, d.arrived, d.request, no_, c);
      deletion = λ f. ground (arith, d.arrived, d.deletion f, no_, zero_, e);
      effects = ground (arith, d.arrived, d.effects, zero_, e, no_);
    }
  ]

at_most_one : (b : Bool) → bit b ≤ 1
at_most_one b = ground arith

none_of : {A : Type 0} (l : List A) → length l ≡ 0 → l ≡ []
none_of [] e = refl
none_of (x ∷ l) e = absurd (omega arith)

-- Nobody has won yet.
fresh-cancels :
    {I O : Type 0} (n : ℕ) (s : Race I O) → Inv n s → length s.calls ≡ 0 → s.cancels ≡ []
fresh-cancels n s v e = none_of s.cancels (omega (arith, v.few_cancels, e))

module _ {I O : Type 0} (leads : I → Bool) (out : ℕ → I → O) (ending : (ℕ → Option I) → I → O)
    (n : ℕ) where
  -- One more task has run.
  ran :
      (g h : Group I O) (t : Task)
      → h.tasks ≡ g.tasks ++ t ∷ []
      → Done n h (execute n t (execute_all n g.tasks initial))
      → Done n h (execute_all n h.tasks initial)
  unfolding execute_all
  ran g h t e d =
      subst (Done n h)
        (sym (
          ap (λ (ts : List Task). execute_all n ts initial) e
          ∙ execute_all-append n g.tasks (t ∷ []) initial))
        d

  handle-Done :
      (g : Group I O) {t : Race I O} (st : Protocol.Step leads out ending n g.race t)
      → Inv n g.race
      → Inv n t
      → Done n g (execute_all n g.tasks initial)
      → Done n
          (handle leads out ending n g st)
          (execute_all n (handle leads out ending n g st).tasks initial)
  unfolding handle schedule_try_cancel_beside schedule_delete_this lead settle claim_for skip
      Race.count trail
  handle-Done g {t} (Protocol.Step.leading i x b e l) v w d = by_done g.race.done refl
    where
      by_done :
          (done : Bool)
          → g.race.done ≡ done
          → Done n
              (record (if done then g else schedule_try_cancel_beside i g) { race = t })
              (execute_all n (if done then g else schedule_try_cancel_beside i g).tasks initial)
      by_done true f = idle-Done n g _ d t (ground (arith, f)) refl
      by_done false f =
          let none_ : g.race.cancels ≡ [] = fresh-cancels n g.race v (ground (arith, v.once, f)) in
          let zero_ : g.race.deletes ≡ 0 = ground (arith, v.flag_deleted, f) in
          ran g (record (schedule_try_cancel_beside i g) { race = t }) (try_cancel_beside_task i)
            refl (cancel-Done n g _ d i t none_ (ground (arith, f, none_)) zero_ zero_)
  handle-Done g {t} (Protocol.Step.trailing i x b e l) v w d = idle-Done n g _ d t refl refl
  handle-Done g {t} (Protocol.Step.counts i b e) v w d =
      by_last (u32 (g.race.counter + 1) == n) refl
    where
      by_last :
          (last : Bool)
          → (u32 (g.race.counter + 1) == n) ≡ last
          → Done n
              (record (if last then schedule_delete_this g else g) { race = t })
              (execute_all n (if last then schedule_delete_this g else g).tasks initial)
      by_last true f =
          let zero_ : g.race.deletes ≡ 0 = ground (arith, w.last_one, f) in
          ran g (record (schedule_delete_this g) { race = t }) delete_this_task refl
            (delete-Done n g _ d t refl zero_ (ground (arith, f, zero_)))
      by_last false f = idle-Done n g _ d t refl (ground (arith, f))
  handle-Done g {t} (Protocol.Step.settles i x b e) v w d =
      let zero_ : g.race.deletes ≡ 0 = ground (arith, w.last_one) in
      ran g (record (schedule_delete_this g) { race = t }) delete_this_task refl
        (delete-Done n g _ d t refl zero_ (ground (arith, zero_)))
  handle-Done g {t} (Protocol.Step.claims i b e free) v w d = idle-Done n g _ d t refl refl
  handle-Done g {t} (Protocol.Step.skips i x b e l) v w d =
      let none_ : g.race.cancels ≡ [] = fresh-cancels n g.race v (
        omega
          (arith, w.once, length-append g.race.calls (out i x ∷ []), at_most_one g.race.done)) in
      let zero_ : g.race.deletes ≡ 0 = elim (dec_lt 0 g.race.deletes) [
        | yes deleted_ ↦ absurd (let over = deleted_lem n g.race v deleted_ i b in cc)
        | no p ↦ omega arith
      ] in
      ran g (record (schedule_try_cancel_beside i g) { race = t }) (try_cancel_beside_task i) refl
        (cancel-Done n g _ d i t none_ (ap (λ (l : List ℕ). l ++ i ∷ []) none_) zero_ zero_)

  module _ (positive : 0 < n) (small : n < 2 ^ 32) where
    Reach-race :
        {g : Group I O} → Reach leads out ending n g → Protocol.Reach leads out ending n g.race
    unfolding initial_group handle scheduled schedule_try_cancel_beside schedule_delete_this
        emit_impl
    Reach-race start = Protocol.Reach.start
    Reach-race (later r (handles st)) = Protocol.Reach.later (Reach-race r) st
    Reach-race (later r (emits e)) = Reach-race r

    pub inv : {g : Group I O} → Reach leads out ending n g → Inv n g.race
    inv r = Reach-Inv leads out ending n positive small (Reach-race r)

    Reach-Done :
        {g : Group I O} → Reach leads out ending n g → Done n g (execute_all n g.tasks initial)
    unfolding initial_group execute_all initial init emit_impl handle
    Reach-Done start = record {
      arrived = refl;
      request = refl;
      deletion = λ f. refl;
      effects = refl;
    }
    Reach-Done (later {g} r (handles st)) =
        handle-Done g st (inv r) (inv (later r (handles st))) (Reach-Done r)
    Reach-Done (later {g} r (emits e)) =
        ran g (emit_impl g) emit_task refl (emit-Done n g _ (Reach-Done r) e)

    -- A group of `n` connections, whose handlers schedule tasks in any interleaving with one another and
    -- with the emission's task, at any time, once the tasks scheduled so far have run in order: before
    -- the emission's task nothing was done outside. With it, the handles of all connections but the
    -- winner's were cancelled, if there is a winner; and the object was deleted, once and last,
    -- if its deletion was scheduled, in which case every inner slot is done.
    pub group_lem :
        {g : Group I O}
        → Reach leads out ending n g
        → ((execute_all n g.tasks initial).effects ≡ expected n g)
          × (length g.race.cancels ≤ 1)
          × (g.race.deletes ≤ 1)
          × (0 < g.race.deletes → (i : ℕ) → i < n → g.race.pcs i ≡ finished)
    group_lem {g} r =
        let v : Inv n g.race = inv r in
        (
          (Reach-Done r).effects,
          omega (arith, v.few_cancels, v.once, at_most_one g.race.done),
          omega (arith, v.last_one, at_most_one (g.race.counter == n)),
          deleted_lem n g.race v,
        )
