-- ===== src/Par/Select/Cases/Trying.antt =====
-- What the emission of include/sl/exec/algo/sync/select.hpp tries, and in which order.
use serious_execution_librar.Prelude.{
  ℕ, suc, ◌+◌, ◌<◌, ◌≤◌, ◌≡◌, ◌≢◌, ◌⊎◌, inl, inr, refl, Bool, true, false, List, [], ◌∷◌, ◌++◌,
  ◌==◌, map, count, arith, bit, ltb, count_if, count_if-append, ◌∙◌, ap, sym, Bool-cases, subst,
  dec_lt, ℕ_discrete,
}
use serious_execution_librar.Slot.{value, error, null}
use serious_execution_librar.Race.{
  Pc, settling, Race, init, claim_for, lead, skip, increment_and_check, trail,
}
use serious_execution_librar.Race
use serious_execution_librar.Ordered.{emit_in_order, get_connection_ordering, max_ordering}
use serious_execution_librar.Ordered.Emission.{Ascending, key, emit_in_order_lem}
use serious_execution_librar.Par.Select.{
  Select, set_value_impl, set_value_skip_done, set_error_impl, set_null_impl, end_value, end_last,
}
use serious_execution_librar.Par.Select.Cases.{
  Offer, waits, hands, completes, SelectCase, Cases, case_, default_, emit_offer, emit_each,
  connections_are_ordered, emit,
}

-- The value that is ready when the connection is emitted.
abbrev pub Ready : {V : Type 0} → Offer V → V → Type 0
Ready (hands w) v = w ≡ v
Ready (completes (value w)) v = w ≡ v
Ready _ v = ⊥

module _ {V W : Type 0} (c : Cases V W) where
  -- Once the flag is set the slot is not completed, nor a cancellation scheduled, by what is emitted later.
  emit_offer_late :
      (i : ℕ) (o : Offer V) (s : Select V W)
      → s.done ≡ true
      → ((emit_offer c i o s).done ≡ true)
        × ((emit_offer c i o s).calls ≡ s.calls)
        × ((emit_offer c i o s).cancels ≡ s.cancels)
  unfolding emit_offer set_value_impl set_value_skip_done set_error_impl set_null_impl end_value
      end_last lead claim_for skip Race.count trail Race.settle increment_and_check
  emit_offer_late i waits s e = (e, refl, refl)
  emit_offer_late i (hands v) s e = ground (arith, e)
  emit_offer_late i (completes (value v)) s e = ground (arith, e)
  emit_offer_late i (completes (error x)) s e = ground (arith, e)
  emit_offer_late i (completes null) s e = ground (arith, e)

  emit_each_late :
      (is : List ℕ) (s : Select V W)
      → s.done ≡ true
      → ((emit_each c is s).calls ≡ s.calls) × ((emit_each c is s).cancels ≡ s.cancels)
  unfolding emit_each
  emit_each_late [] s e = (refl, refl)
  emit_each_late (i ∷ is) s e =
      let (d, calls, cancels) = emit_offer_late i (c.cases i).offer s e in
      let (calls', cancels') = emit_each_late is (emit_offer c i (c.cases i).offer s) d in
      (calls' ∙ calls, cancels' ∙ cancels)

  -- The first one that is ready wins.
  emit_offer-Ready :
      (i : ℕ) (o : Offer V) (v : V) (s : Select V W)
      → Ready o v
      → s.done ≡ false
      → s.calls ≡ []
      → s.cancels ≡ []
      → ((emit_offer c i o s).done ≡ true)
        × ((emit_offer c i o s).calls ≡ value ((c.cases i).functor v) ∷ [])
        × ((emit_offer c i o s).cancels ≡ i ∷ [])
  unfolding emit_offer set_value_impl set_value_skip_done end_value lead claim_for skip Race.count
      increment_and_check
  emit_offer-Ready i (hands w) v s r e f g = ground (arith, e, f, g, r)
  emit_offer-Ready i (completes (value w)) v s r e f g = ground (arith, e, f, g, r)
  emit_offer-Ready i waits v s r e f g = elim r [ ]
  emit_offer-Ready i (completes (error _)) v s r e f g = elim r [ ]
  emit_offer-Ready i (completes null) v s r e f g = elim r [ ]

  -- `j` is the first of the emitted connections that is ready, and its value was taken.
  record First (is : List ℕ) (s : Select V W) : Type 0 where
    before : List ℕ
    j : ℕ
    after : List ℕ
    v : V
    split : is ≡ before ++ j ∷ after
    ready : Ready (c.cases j).offer v
    earlier : (k : ℕ) → 0 < count k before → (c.cases k).offer ≡ waits
    calls : s.calls ≡ value ((c.cases j).functor v) ∷ []
    cancels : s.cancels ≡ j ∷ []

  abbrev Tries : ℕ → Type 0
  Tries k = ((c.cases k).offer ≡ waits) ⊎ ((v : V) × Ready (c.cases k).offer v)

  -- Nothing was ready, and nothing was done.
  abbrev Idle : List ℕ → Select V W → Type 0
  Idle is s =
      ((k : ℕ) → 0 < count k is → (c.cases k).offer ≡ waits) × (s.calls ≡ []) × (s.cancels ≡ [])

  skipped : (i : ℕ) (o : Offer V) (s : Select V W) → o ≡ waits → s ≡ emit_offer c i o s
  unfolding emit_offer
  skipped i waits s e = refl
  skipped i (hands v) s e = absurd (cc)
  skipped i (completes x) s e = absurd (cc)

  wider :
      (i : ℕ) (is : List ℕ) (s : Select V W)
      → (c.cases i).offer ≡ waits
      → First is s ⊎ Idle is s
      → First (i ∷ is) s ⊎ Idle (i ∷ is) s
  wider i is s w (inl x) = inl (record {
    before = i ∷ x.before;
    j = x.j;
    after = x.after;
    v = x.v;
    split = ap (λ (l : List ℕ). i ∷ l) x.split;
    ready = x.ready;
    earlier = λ k h. elim (Bool-cases (i == k)) [
      | inl same ↦ ground (arith, w, same)
      | inr other ↦ x.earlier k (ground arith)
    ];
    calls = x.calls;
    cancels = x.cancels;
  })
  wider i is s w (inr (idle, calls, cancels)) = inr (
    λ k h. elim (Bool-cases (i == k)) [
      | inl same ↦ ground (arith, w, same)
      | inr other ↦ idle k (ground arith)
    ],
    calls,
    cancels,
  )

  emit_each_lem :
      (is : List ℕ) (s : Select V W)
      → ((k : ℕ) → 0 < count k is → Tries k)
      → s.done ≡ false
      → s.calls ≡ []
      → s.cancels ≡ []
      → First is (emit_each c is s) ⊎ Idle is (emit_each c is s)
  unfolding emit_each emit_offer
  emit_each_lem [] s t e f g = inr (λ k h. absurd (omega arith), f, g)
  emit_each_lem (i ∷ is) s t e f g = elim (t i (ground arith)) [
    | inr (v, r) ↦
        let (d, calls, cancels) = emit_offer-Ready i (c.cases i).offer v s r e f g in
        let (late, late') = emit_each_late is (emit_offer c i (c.cases i).offer s) d in
        inl (record {
          before = [];
          j = i;
          after = is;
          v = v;
          split = refl;
          ready = r;
          earlier = λ k h. absurd (omega arith);
          calls = late ∙ calls;
          cancels = late' ∙ cancels;
        })
    | inl w ↦
        let same : s ≡ emit_offer c i (c.cases i).offer s = skipped i (c.cases i).offer s w in
        subst (λ t. First (i ∷ is) (emit_each c is t) ⊎ Idle (i ∷ is) (emit_each c is t)) same
          (wider i is (emit_each c is s) w (emit_each_lem is s (λ k h. t k (ground arith)) e f g))
  ]

Ascending-tail : (x : ℕ) (l : List ℕ) → Ascending (x ∷ l) → Ascending l
Ascending-tail x [] h = tt
Ascending-tail x (y ∷ l) h = h.1

module _ (g : ℕ → ℕ) where
  head-le :
      (j : ℕ) (post : List ℕ)
      → Ascending (map g (j ∷ post))
      → (k : ℕ) → 0 < count k post
      → g j ≤ g k
  head-le j [] h k m = absurd (omega arith)
  head-le j (p ∷ post) h k m = elim (Bool-cases (p == k)) [
    | inl same ↦ ground (arith, same, h.0)
    | inr other ↦ omega (arith, h.0, head-le p post h.1 k (ground arith))
  ]

  after-le :
      (pre : List ℕ) (j : ℕ) (post : List ℕ)
      → Ascending (map g (pre ++ j ∷ post))
      → (k : ℕ) → 0 < count k post
      → g j ≤ g k
  after-le [] j post h = head-le j post h
  after-le (p ∷ pre) j post h =
      after-le pre j post (Ascending-tail (g p) (map g (pre ++ j ∷ post)) h)

module _ {V W : Type 0} (stable_sort : List (ℕ × ℕ) → List (ℕ × ℕ))
    (rearranges : (xs : List (ℕ × ℕ)) (f : ℕ × ℕ → Bool)
      → count_if f (stable_sort xs) ≡ count_if f xs)
    (sorts : (xs : List (ℕ × ℕ)) → Ascending (map key (stable_sort xs))) (s : Cases V W)
    (ok_tag : V) (functor : V → W) where
  abbrev with_default : Cases V W
  with_default = default_ ok_tag functor s

  abbrev ordering_at : ℕ → ℕ
  ordering_at i = get_connection_ordering (with_default.cases i).ordering

  abbrev sorted : List ℕ
  sorted =
      (emit_in_order stable_sort (λ i. (with_default.cases i).ordering) with_default.size).emissions

  emit-default : emit stable_sort with_default ≡ emit_each with_default sorted init
  unfolding emit default_ case_ connections_are_ordered
  emit-default = ground arith

  once : (i : ℕ) → count i sorted ≡ bit (ltb i (suc s.size))
  unfolding default_ case_
  once =
      (emit_in_order_lem stable_sort (λ i. (with_default.cases i).ordering) rearranges sorts
        with_default.size).0

  ascends : Ascending (map ordering_at sorted)
  ascends =
      (emit_in_order_lem stable_sort (λ i. (with_default.cases i).ordering) rearranges sorts
        with_default.size).1

  cases-default : (i : ℕ) → i < s.size → with_default.cases i ≡ s.cases i
  unfolding default_ case_
  cases-default i b = ground arith

  default-offer : (with_default.cases s.size).offer ≡ completes (value ok_tag)
  unfolding default_ case_
  default-offer = ground arith

  default-functor : (with_default.cases s.size).functor ≡ functor
  unfolding default_ case_
  default-functor = ground arith

  default-ordering : ordering_at s.size ≡ max_ordering
  unfolding default_ case_ get_connection_ordering
  default-ordering = ground arith

  -- A case of the result, at an index that was emitted.
  below : (k : ℕ) → 0 < count k sorted → k ≢ s.size → k < s.size
  below k m other = ground (arith, once k, other)

  -- A connection other than the winner was emitted before it, or has no smaller ordering.
  placed :
      (t : Select V W) (x : First with_default sorted t) (k : ℕ)
      → k < s.size
      → k ≢ x.j
      → ((with_default.cases k).offer ≡ waits) ⊎ (ordering_at x.j ≤ ordering_at k)
  placed t x k b other = elim (dec_lt 0 (count k x.before)) [
    | yes early ↦ inl (x.earlier k early)
    | no p ↦ inr (
        after-le ordering_at x.before x.j x.after
          (subst (λ l. Ascending (map ordering_at l)) x.split ascends) k
          (ground (arith, p, once k, other, counted)))
  ]
    where
      counted : count k sorted ≡ count k x.before + count k (x.j ∷ x.after)
      counted = ap (count k) x.split ∙ count_if-append (λ i. i == k) x.before (x.j ∷ x.after)

  chosen : (t : Select V W) (x : First with_default sorted t) → 0 < count x.j sorted
  chosen t x =
      ground
        (arith, ap (count x.j) x.split ∙ count_if-append (λ i. i == x.j) x.before (x.j ∷ x.after))

  abbrev IsChannel : Offer V → Type 0
  IsChannel o = (o ≡ waits) ⊎ ((v : V) × (o ≡ hands v))

  default_taken :
      (j : ℕ) (v : V)
      → j ≡ s.size
      → Ready (with_default.cases j).offer v
      → (with_default.cases j).functor v ≡ functor ok_tag
  default_taken j v here r = rw here (rw default-functor (ap functor (sym same)))
    where
      same : ok_tag ≡ v
      same =
          subst (λ (o : Offer V). Ready o v)
            (ap (λ (i : ℕ). (with_default.cases i).offer) here ∙ default-offer) r

  handed : (o : Offer V) (v : V) → IsChannel o → Ready o v → o ≡ hands v
  handed o v (inl w) r = absurd (subst (λ (q : Offer V). Ready q v) w r)
  handed o v (inr (u, h)) r = h ∙ ap hands (subst (λ (q : Offer V). Ready q v) h r)

  -- A select that ends in `default_`, after cases that are all ordered by addresses, as those of a channel
  -- are, each of which either waits or has a partner that hands it a value. With a sort that
  -- rearranges its argument in ascending order: if no case has a partner, the default's functor is
  -- applied, its value is given, and all cases are to be cancelled. If some case has one, the functor
  -- of such a case `j` is applied to its value, which is given, all others are to be cancelled, and no
  -- case of a smaller ordering has a partner. Nothing else is given.
  pub default_lem :
      ((i : ℕ) → i < s.size → get_connection_ordering (s.cases i).ordering < max_ordering)
      → ((i : ℕ)
          → i < s.size
          → ((s.cases i).offer ≡ waits) ⊎ ((v : V) × ((s.cases i).offer ≡ hands v)))
      → ((j : ℕ) × (v : V) × (j < s.size)
          × ((s.cases j).offer ≡ hands v)
          × ((emit stable_sort (default_ ok_tag functor s)).calls
              ≡ value ((s.cases j).functor v) ∷ [])
          × ((emit stable_sort (default_ ok_tag functor s)).cancels ≡ j ∷ [])
          × ((k : ℕ)
              → k < s.size
              → get_connection_ordering (s.cases k).ordering
                < get_connection_ordering (s.cases j).ordering
              → (s.cases k).offer ≡ waits))
        ⊎ (((i : ℕ) → i < s.size → (s.cases i).offer ≡ waits)
            × ((emit stable_sort (default_ ok_tag functor s)).calls ≡ value (functor ok_tag) ∷ [])
            × ((emit stable_sort (default_ ok_tag functor s)).cancels ≡ s.size ∷ []))
  unfolding init
  default_lem small tries = elim outcome [
    | inl x ↦ elim (ℕ_discrete x.j s.size) [
      | yes here ↦ inr (
        λ i b. elim (placed _ x i b (ground (arith, here))) [
          | inl w ↦ waiting i b w
          | inr le ↦ absurd (ground (arith, here, le, old i b, small i b, default-ordering))
        ],
        emitted (λ t. t.calls)
            ∙ x.calls
            ∙ ap (λ (w : W). value w ∷ []) (default_taken x.j x.v here x.ready),
        emitted (λ t. t.cancels) ∙ x.cancels ∙ ap (λ (i : ℕ). i ∷ []) here,
      )
      | no other ↦
          let b : x.j < s.size = below x.j (chosen _ x) other in
          inl (
            x.j,
            x.v,
            b,
            handed (s.cases x.j).offer x.v (tries x.j b)
                (subst (λ (q : SelectCase V W). Ready q.offer x.v) (cases-default x.j b) x.ready),
            emitted (λ t. t.calls)
                ∙ x.calls
                ∙ ap (λ (q : SelectCase V W). value (q.functor x.v) ∷ []) (cases-default x.j b),
            emitted (λ t. t.cancels) ∙ x.cancels,
            λ k l less. elim (placed _ x k l (ground (arith, less))) [
              | inl w ↦ waiting k l w
              | inr le ↦ absurd (ground (arith, le, less, old k l, old x.j b))
            ],
          )
    ]
    | inr (idle, calls, cancels) ↦ absurd (
        subst (λ (o : Offer V). Ready o ok_tag)
          (sym default-offer ∙ idle s.size (ground (arith, once s.size))) refl)
  ]
    where
      each : (k : ℕ) → 0 < count k sorted → Tries with_default k
      each k m = elim (ℕ_discrete k s.size) [
        | yes here ↦ inr (ok_tag, rw here (rw default-offer refl))
        | no other ↦
            let b = below k m other in
            rw (cases-default k b)
              (elim (tries k b) [ inl w ↦ inl w | inr (v, h) ↦ inr (v, rw h refl) ])
      ]

      outcome :
          First with_default sorted (emit_each with_default sorted init)
          ⊎ Idle with_default sorted (emit_each with_default sorted init)
      outcome = emit_each_lem with_default sorted init each refl refl refl

      waiting :
          (i : ℕ) → i < s.size → (with_default.cases i).offer ≡ waits → (s.cases i).offer ≡ waits
      waiting i b w = subst (λ (q : SelectCase V W). q.offer ≡ waits) (cases-default i b) w

      old : (i : ℕ) → i < s.size → ordering_at i ≡ get_connection_ordering (s.cases i).ordering
      old i b = ap (λ (q : SelectCase V W). get_connection_ordering q.ordering) (cases-default i b)

      emitted :
          {A : Type 0} (f : Select V W → A)
          → f (emit stable_sort with_default) ≡ f (emit_each with_default sorted init)
      emitted f = ap f emit-default
