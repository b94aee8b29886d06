-- ===== src/Share/Invariant.antt =====
-- Who holds references to the storage of include/sl/exec/algo/emit/share.hpp, where the callbacks are, and
-- which have been called, step by step.
use serious_execution_librar.Prelude.{
  ℕ, ◌+◌, ◌<◌, ◌≤◌, ◌≡◌, refl, Bool, true, false, Option, List, [], ◌∷◌, ◌++◌, arith, ◌==◌, bit,
  length, count, count_if, count_if-append, weigh, weigh-update, weigh_all,
}
use serious_execution_librar.Slot.{Result}
use serious_execution_librar.Share.{
  Word, state_empty, callbacks, state_result, Phase, unborn, holding, linked, called, to_copy,
  to_release, released, dropped, Producer, idle, to_store, to_exchange, notifying, produced, Share,
  new_box, incref, decref, get_signal, drop, drop_box, emit, copy, release, store, exchange, notify,
  finish, Step, gets, drops, drops_box, emits, copies, releases, stores, exchanges, notifies,
  finishes, Reach, start, later,
}

-- Holders of a reference of their own.
abbrev pub weight : Phase → ℕ
weight holding = 1
weight linked = 1
weight to_copy = 1
weight to_release = 1
weight _ = 0

abbrev pub is_linked : Phase → Bool
is_linked linked = true
is_linked _ = false

abbrev pub was_called : Phase → Bool
was_called called = true
was_called to_release = true
was_called released = true
was_called _ = false

-- References of callbacks that were called, which `set_result` has still to release.
abbrev pub owed : Producer → ℕ
owed (notifying l n) = n
owed _ = 0

-- The callbacks that wait.
abbrev pub waiting : Word → Producer → List ℕ
waiting state_empty p = []
waiting (callbacks l) p = l
waiting state_result (notifying l n) = l
waiting state_result _ = []

-- Which words and places of the producer go together.
abbrev pub Agree : Word → Producer → Type 0
Agree state_empty idle = Unit {0}
Agree (callbacks (i ∷ l)) to_store = Unit {0}
Agree (callbacks (i ∷ l)) to_exchange = Unit {0}
Agree state_result (notifying l n) = 0 < length l + n
Agree state_result produced = Unit {0}
Agree _ _ = ⊥

abbrev pub calls_of : {V E : Type 0} → ℕ → ℕ × Option (Result V E) → Bool
calls_of i c = c.0 == i

-- The result is in `maybe_result_`.
abbrev Stored : Producer → Type 0
Stored idle = ⊥
Stored to_store = ⊥
Stored _ = Unit {0}

abbrev pub AllCarry : {V E : Type 0} → Option (Result V E) → List (ℕ × Option (Result V E)) → Type 0
AllCarry result [] = Unit {0}
AllCarry result (c ∷ cs) = (c.1 ≡ result) × AllCarry result cs

module _ {V E : Type 0} (n : ℕ) (result : Option (Result V E)) where
  pub record Inv (s : Share V E) : Type 0 where
    pub counted : s.refcount ≡ bit s.has_box + weigh weight n s.phases + owed s.producer
    pub bounded : s.refcount < 4294967296
    pub agree : Agree s.state s.producer
    pub queued : (i : ℕ) → count i (waiting s.state s.producer) ≡ bit (is_linked (s.phases i))
    pub few : (i : ℕ) → n ≤ i → s.phases i ≡ unborn
    pub heard : (i : ℕ) → count_if (calls_of i) s.calls ≡ bit (was_called (s.phases i))
    pub stored : Stored s.producer → s.maybe_result ≡ result
    pub late : (i : ℕ) → s.phases i ≡ to_copy → s.state ≡ state_result
    pub carried : AllCarry result s.calls
    pub deleted : s.deletes ≡ bit (s.refcount == 0)

  get_signal-Inv :
      (i : ℕ) (s : Share V E)
      → i < n
      → s.has_box ≡ true
      → s.phases i ≡ unborn
      → s.refcount + 1 < 4294967296
      → Inv s
      → Inv (get_signal i s)
  unfolding get_signal incref
  get_signal-Inv i s b box e small v = record {
    counted = ground (arith, v.counted, weigh-update weight n i s.phases holding);
    bounded = ground arith;
    agree = v.agree;
    queued = λ k. ground (arith, v.queued k);
    few = λ k h. ground (arith, v.few k h);
    heard = λ k. ground (arith, v.heard k);
    stored = v.stored;
    late = λ k h. ground (arith, v.late k);
    carried = v.carried;
    deleted = ground (arith, v.deleted, v.counted);
  }

  AllCarry-append :
      (cs : List (ℕ × Option (Result V E))) (r : Option (Result V E)) (i : ℕ)
      → AllCarry result cs
      → r ≡ result
      → AllCarry result (cs ++ (i, r) ∷ [])
  AllCarry-append [] r i h e = (e, tt)
  AllCarry-append (c ∷ cs) r i h e = (h.0, AllCarry-append cs r i h.1 e)

  stored_late : (i : ℕ) (s : Share V E) → s.phases i ≡ to_copy → Inv s → s.maybe_result ≡ result
  stored_late i s e v = v.stored (ground (arith, v.late i e, v.agree))

  agree_notifying :
      (s : Share V E)
      → Inv s
      → {l : List ℕ} {m : ℕ} → s.producer ≡ notifying l m
      → s.state ≡ state_result
  agree_notifying s v e = ground (arith, v.agree)

  drop-Inv : (i : ℕ) (s : Share V E) → i < n → s.phases i ≡ holding → Inv s → Inv (drop i s)
  unfolding drop decref
  drop-Inv i s b e v = record {
    counted = ground (arith, v.counted, weigh-update weight n i s.phases dropped);
    bounded = ground (arith, v.bounded, v.counted, weigh-update weight n i s.phases dropped);
    agree = ground (arith, v.agree);
    queued = λ k. ground (arith, v.queued k);
    few = λ k h. ground (arith, v.few k h);
    heard = λ k. ground (arith, v.heard k);
    stored = v.stored;
    late = λ k h. ground (arith, v.late k);
    carried = v.carried;
    deleted = ground (arith, v.deleted, v.counted, weigh-update weight n i s.phases dropped);
  }

  drop_box-Inv : (s : Share V E) → s.has_box ≡ true → Inv s → Inv (drop_box s)
  unfolding drop_box decref
  drop_box-Inv s e v = record {
    counted = ground (arith, v.counted);
    bounded = ground (arith, v.bounded, v.counted);
    agree = ground (arith, v.agree);
    queued = λ k. ground (arith, v.queued k);
    few = λ k h. ground (arith, v.few k h);
    heard = λ k. ground (arith, v.heard k);
    stored = v.stored;
    late = λ k h. ground (arith, v.late k);
    carried = v.carried;
    deleted = ground (arith, v.deleted, v.counted);
  }

  release-Inv :
      (i : ℕ) (s : Share V E) → i < n → s.phases i ≡ to_release → Inv s → Inv (release i s)
  unfolding release decref
  release-Inv i s b e v = record {
    counted = ground (arith, v.counted, weigh-update weight n i s.phases released);
    bounded = ground (arith, v.bounded, v.counted, weigh-update weight n i s.phases released);
    agree = ground (arith, v.agree);
    queued = λ k. ground (arith, v.queued k);
    few = λ k h. ground (arith, v.few k h);
    heard = λ k. ground (arith, v.heard k);
    stored = v.stored;
    late = λ k h. ground (arith, v.late k);
    carried = v.carried;
    deleted = ground (arith, v.deleted, v.counted, weigh-update weight n i s.phases released);
  }

  copy-Inv : (i : ℕ) (s : Share V E) → i < n → s.phases i ≡ to_copy → Inv s → Inv (copy i s)
  unfolding copy
  copy-Inv i s b e v = record {
    counted = ground (arith, v.counted, weigh-update weight n i s.phases to_release);
    bounded = ground (arith, v.bounded, v.counted, weigh-update weight n i s.phases to_release);
    agree = ground (arith, v.agree);
    queued = λ k. ground (arith, v.queued k);
    few = λ k h. ground (arith, v.few k h);
    heard = λ k. ground (
      arith,
      v.heard k,
      count_if-append (calls_of {V = V} {E = E} k) s.calls ((i, s.maybe_result) ∷ []),
    );
    stored = v.stored;
    late = λ k h. ground (arith, v.late k);
    carried = AllCarry-append s.calls s.maybe_result i v.carried (stored_late i s e v);
    deleted = ground (arith, v.deleted, v.counted, weigh-update weight n i s.phases to_release);
  }

  store-Inv : (s : Share V E) → s.producer ≡ to_store → Inv s → Inv (store result s)
  unfolding store
  store-Inv s e v = record {
    counted = ground (arith, v.counted);
    bounded = ground (arith, v.bounded, v.counted);
    agree = ground (arith, v.agree);
    queued = λ k. ground (arith, v.queued k, v.agree);
    few = λ k h. ground (arith, v.few k h);
    heard = λ k. ground (arith, v.heard k);
    stored = λ h. refl;
    late = λ k h. ground (arith, v.late k);
    carried = v.carried;
    deleted = ground (arith, v.deleted, v.counted);
  }

  exchange-Inv : (s : Share V E) → s.producer ≡ to_exchange → Inv s → Inv (exchange s)
  unfolding exchange
  exchange-Inv s e v = record {
    counted = ground (arith, v.counted, v.agree);
    bounded = ground (arith, v.bounded, v.agree);
    agree = ground (arith, v.agree);
    queued = λ k. ground (arith, v.queued k, v.agree);
    few = λ k h. ground (arith, v.few k h, v.agree);
    heard = λ k. ground (arith, v.heard k, v.agree);
    stored = λ h. ground (arith, v.stored (ground (arith, e)), v.agree);
    late = λ k h. ground (arith, v.late k, v.agree);
    carried = ground (arith, v.carried, v.agree);
    deleted = ground (arith, v.deleted, v.agree);
  }

  notify-Inv :
      (i : ℕ) (rest : List ℕ) (m : ℕ) (s : Share V E)
      → s.producer ≡ notifying (i ∷ rest) m
      → Inv s
      → Inv (notify i rest m s)
  unfolding notify
  notify-Inv i rest m s e v = record {
    counted = ground (
      arith,
      v.counted,
      v.queued i,
      v.few i,
      agree_notifying s v e,
      weigh-update weight n i s.phases called,
    );
    bounded = v.bounded;
    agree = ground (arith, v.agree, agree_notifying s v e);
    queued = λ k. ground (arith, v.queued k, agree_notifying s v e);
    few = λ k h. ground (arith, v.few k h, v.queued i, agree_notifying s v e);
    heard = λ k. ground (
      arith,
      v.heard k,
      v.queued i,
      agree_notifying s v e,
      count_if-append (calls_of {V = V} {E = E} k) s.calls ((i, s.maybe_result) ∷ []),
    );
    stored = λ h. v.stored (ground (arith, e));
    late = λ k h. ground (arith, v.late k);
    carried = AllCarry-append s.calls s.maybe_result i v.carried (v.stored (ground (arith, e)));
    deleted = v.deleted;
  }

  finish-Inv : (m : ℕ) (s : Share V E) → s.producer ≡ notifying [] m → Inv s → Inv (finish m s)
  unfolding finish decref
  finish-Inv m s e v = record {
    counted = ground (arith, v.counted, v.bounded);
    bounded = ground (arith, v.bounded);
    agree = ground (arith, v.agree, agree_notifying s v e);
    queued = λ k. ground (arith, v.queued k, agree_notifying s v e);
    few = λ k h. ground (arith, v.few k h);
    heard = λ k. ground (arith, v.heard k);
    stored = λ h. v.stored (ground (arith, e));
    late = λ k h. ground (arith, v.late k);
    carried = v.carried;
    deleted = ground (arith, v.deleted, v.counted, v.bounded, v.agree, agree_notifying s v e);
  }

  emit-Inv : (i : ℕ) (s : Share V E) → i < n → s.phases i ≡ holding → Inv s → Inv (emit i s)
  unfolding emit
  emit-Inv i s b e v = record {
    counted = ground (
      arith,
      v.counted,
      v.agree,
      weigh-update weight n i s.phases linked,
      weigh-update weight n i s.phases to_copy,
    );
    bounded = ground (arith, v.bounded);
    agree = ground (arith, v.agree);
    queued = λ k. ground (arith, v.queued k, v.agree);
    few = λ k h. ground (arith, v.few k h);
    heard = λ k. ground (arith, v.heard k);
    stored = λ h. ground (arith, h, v.stored, v.agree);
    late = λ k h. ground (arith, v.late k);
    carried = ground (arith, v.carried);
    deleted = ground (arith, v.deleted);
  }

  pub Step-Inv : {s t : Share V E} → Step n result s t → Inv s → Inv t
  Step-Inv {s} (gets i b box e small) v = get_signal-Inv i s b box e small v
  Step-Inv {s} (drops i b e) v = drop-Inv i s b e v
  Step-Inv {s} (drops_box e) v = drop_box-Inv s e v
  Step-Inv {s} (emits i b e) v = emit-Inv i s b e v
  Step-Inv {s} (copies i b e) v = copy-Inv i s b e v
  Step-Inv {s} (releases i b e) v = release-Inv i s b e v
  Step-Inv {s} (stores e) v = store-Inv s e v
  Step-Inv {s} (exchanges e) v = exchange-Inv s e v
  Step-Inv {s} (notifies i rest m e) v = notify-Inv i rest m s e v
  Step-Inv {s} (finishes m e) v = finish-Inv m s e v

  pub Reach-Inv : {s : Share V E} → Reach n result s → Inv s
  unfolding new_box
  Reach-Inv start = record {
    counted = omega (arith, weigh_all weight n (λ i. unborn) 0 (λ i b. refl));
    bounded = omega arith;
    agree = tt;
    queued = λ i. refl;
    few = λ i h. refl;
    heard = λ i. refl;
    stored = λ h. absurd h;
    late = λ i h. cc;
    carried = tt;
    deleted = refl;
  }
  Reach-Inv (later r st) = Step-Inv st (Reach-Inv r)
