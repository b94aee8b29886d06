-- ===== src/Channel/Sending.antt =====
-- `send` of channel.hpp and the invariant: its branches and its loop.
use serious_execution_librar.Prelude.{
  ℕ, suc, ◌⊎◌, ◌+◌, ◌≡◌, refl, inl, inr, Bool, true, false, none, some, [], ◌∷◌, ◌++◌, arith, ◌==◌,
  bit, count, count_if, count_if-append, length, update, Bool-cases, Option-cases, Outcome,
  loop_lem, ap,
}
use serious_execution_librar.Intrusive.{IntrusiveList}
use serious_execution_librar.Channel.{
  Call, Channel, call, is_some, is_done, must_enqueue, set_queued, request_cancel, recv_value,
  send_value, try_fulfill, claim, send_round, send, enqueue_send, send_error, send_null,
}
use serious_execution_librar.Channel.Invariant.{
  Phase, fresh, emitted, withdrawn, finished, after_emit, CanEmit, names_send, names_recv, Settled,
  Inv,
}

module _ {Q V : Type 0} where
  -- What `try_fulfill` does: nothing, or both calls at once and a change of flags.
  pub try_fulfill-cases :
      (i j : ℕ) (c : Channel Q V)
      → (try_fulfill i j c ≡ none)
        ⊎ ((done' : ℕ → ℕ) × (skip_r skip_s : Bool) × (try_fulfill i j c
              ≡ some (record c {
                done = done';
                log = c.log ++ recv_value skip_r j (c.values i) ∷ send_value skip_s i ∷ [];
              })))
  unfolding try_fulfill
  try_fulfill-cases i j c =
      elim (Option-cases (claim (c.sends i).select_done (c.recvs j).select_done c.done)) [
        | inl e ↦ inl (rw (e, try_fulfill))
        | inr (done', e) ↦ inr (
          done',
          is_some (c.recvs j).select_done,
          is_some (c.sends i).select_done,
          rw (e, try_fulfill),
        )
      ]

module _ {Q V : Type 0} (L : IntrusiveList Q) (sp rp : ℕ → Phase) (i : ℕ) where
  abbrev Before : Channel Q V → Type 0
  Before c = Inv L sp rp c × (sp i ≡ fresh) × (c.is_closed ≡ false)

  abbrev After : Channel Q V → Type 0
  After c = Inv L (update sp i emitted) rp c

  enqueue_send-Inv : (c : Channel Q V) → Before c → After (enqueue_send L i c)
  unfolding enqueue_send
  enqueue_send-Inv c (v, e, open_) = record {
    send_linked = λ k. ground (
      arith,
      L.to_list-push_back c.sendq i,
      count_if-append (λ x. x == k) (L.to_list c.sendq) (i ∷ []),
      v.send_linked k,
      v.send_settled k,
    );
    recv_linked = v.recv_linked;
    send_settled = λ k. ground (arith, v.send_settled k);
    recv_settled = v.recv_settled;
    no_receivers = v.no_receivers;
  }

  module _ (c : Channel Q V) (before : Before c) (j : ℕ) (rest : Q)
      (cons : L.to_list c.recvq ≡ j ∷ L.to_list rest) where
    inv : Inv L sp rp c
    inv = before.0

    pop-count : (k : ℕ) → bit (j == k) + count k (L.to_list rest) ≡ bit (c.recvs k).queued_in
    pop-count k = ground (arith, ap (count k) cons, inv.recv_linked k)

    -- Values are handed over, whatever the flags are.
    fulfilled-Inv :
        (done' : ℕ → ℕ) (skip_r skip_s : Bool)
        → After (record c {
          recvq = rest;
          recvs = update c.recvs j (set_queued false (c.recvs j));
          done = done';
          log = c.log ++ recv_value skip_r j (c.values i) ∷ send_value skip_s i ∷ [];
        })
    fulfilled-Inv done' skip_r skip_s = record {
      send_linked = inv.send_linked;
      recv_linked = λ k. ground (arith, pop-count k);
      send_settled = λ k. ground (
        arith,
        before.1,
        inv.send_settled k,
        count_if-append (names_send k) c.log
            (recv_value skip_r j (c.values i) ∷ send_value skip_s i ∷ []),
      );
      recv_settled = λ k. ground (
        arith,
        pop-count k,
        inv.recv_settled k,
        count_if-append (names_recv k) c.log
            (recv_value skip_r j (c.values i) ∷ send_value skip_s i ∷ []),
      );
      no_receivers = λ closed. cc;
    }

    -- A receiver of a finished select is passed over and marked.
    passed_over-Inv : Before (record c {
      recvq = rest;
      recvs = update c.recvs j (request_cancel (set_queued false (c.recvs j)));
    })
    passed_over-Inv = (
      record {
        send_linked = inv.send_linked;
        recv_linked = λ k. ground (arith, pop-count k);
        send_settled = inv.send_settled;
        recv_settled = λ k. ground (arith, pop-count k, inv.recv_settled k);
        no_receivers = λ closed. cc;
      },
      before.1,
      before.2,
    )

    -- The receiver goes back, and the sender is marked.
    put_back-Inv : After (record c {
      recvq = L.push_front rest j;
      recvs = update c.recvs j (set_queued true (c.recvs j));
      sends = update c.sends i (request_cancel (c.sends i));
    })
    put_back-Inv = record {
      send_linked = λ k. ground (arith, inv.send_linked k);
      recv_linked = λ k. ground (arith, pop-count k, L.to_list-push_front rest j);
      send_settled = λ k. ground (arith, before.1, inv.send_settled k);
      recv_settled = λ k. ground (arith, pop-count k, inv.recv_settled k);
      no_receivers = λ closed. cc;
    }

    round-Outcome :
        (popped : L.pop_front c.recvq ≡ some (j, rest))
        → Outcome Before After (λ c. length (L.to_list c.recvq)) c (send_round L i c)
    unfolding send_round
    round-Outcome popped =
        elim (try_fulfill-cases i j
          (record c { recvq = rest; recvs = update c.recvs j (set_queued false (c.recvs j)) })) [
            | inr (done', skip_r, skip_s, e) ↦
                rw (popped, e, send_round) (fulfilled-Inv done' skip_r skip_s)
            | inl e ↦ elim (Bool-cases (is_done (c.recvs j).select_done c.done)) [
              | inl d ↦
                  rw (popped, e, d, send_round) (passed_over-Inv, omega (arith, ap length cons))
              | inr d ↦ rw (popped, e, d, send_round) put_back-Inv
            ]
          ]

  send_round-Outcome :
      (c : Channel Q V)
      → Before c
      → Outcome Before After (λ c. length (L.to_list c.recvq)) c (send_round L i c)
  unfolding send_round
  send_round-Outcome c before = elim (L.pop_front_lem c.recvq) [
    | inl (none_left, nil) ↦ rw (none_left, send_round) (enqueue_send-Inv c before)
    | inr (j, rest, popped, cons) ↦ round-Outcome c before j rest cons popped
  ]

  abbrev Sent : Channel Q V → Phase → Type 0
  Sent c p = (c' : Channel Q V) × (send L i c ≡ some c') × Inv L (update sp i p) rp c'

  calls-Inv :
      (c : Channel Q V) (p : Phase) (e : Call V)
      → Inv L sp rp c
      → ((k : ℕ)
          → Settled
              (update sp i p k)
              (c.sends k)
              (count_if (names_send k) c.log + bit (names_send k e)))
      → ((k : ℕ) → bit (names_recv k e) ≡ 0)
      → Inv L (update sp i p) rp (record c { log = c.log ++ e ∷ [] })
  calls-Inv c p e v s r = record {
    send_linked = v.send_linked;
    recv_linked = v.recv_linked;
    send_settled = λ k. ground (arith, s k, count_if-append (names_send k) c.log (e ∷ []));
    recv_settled =
        λ k. ground (arith, v.recv_settled k, r k, count_if-append (names_recv k) c.log (e ∷ []));
    no_receivers = v.no_receivers;
  }

  fresh-Inv : (c : Channel Q V) → sp i ≡ fresh → Inv L sp rp c → Sent c emitted
  unfolding send
  fresh-Inv c e v = elim (Bool-cases c.is_closed) [
    | inl closed ↦ (
      call c (send_error i),
      ground arith,
      calls-Inv c emitted (send_error i) v (λ k. ground (arith, e, v.send_settled k))
          (λ k. omega arith),
    )
    | inr open_ ↦
        elim (Bool-cases (must_enqueue (c.sends i).select_done c.recvs (L.back c.recvq))) [
          | inl wait ↦
              (enqueue_send L i c, ground (arith, unmarked), enqueue_send-Inv c (v, e, open_))
          | inr meet ↦
              let (c', returns, inv') =
                loop_lem Before After (λ c. length (L.to_list c.recvq)) (send_round L i)
                  send_round-Outcome (suc (length (L.to_list c.recvq))) c (omega arith)
                  (v, e, open_) in
              (c', ground (arith, unmarked, returns), inv')
        ]
  ]
    where
      unmarked : (c.sends i).requested_cancel ≡ false
      unmarked = ground (arith, e, v.send_settled i)

  withdrawn-Inv : (c : Channel Q V) → sp i ≡ withdrawn → Inv L sp rp c → Sent c finished
  unfolding send
  withdrawn-Inv c e v = elim (Bool-cases c.is_closed) [
    | inl closed ↦ (
      call c (send_error i),
      ground arith,
      calls-Inv c finished (send_error i) v (λ k. ground (arith, e, v.send_settled k))
          (λ k. omega arith),
    )
    | inr open_ ↦ (
      call c (send_null i),
      ground (arith, marked),
      calls-Inv c finished (send_null i) v (λ k. ground (arith, e, v.send_settled k))
          (λ k. omega arith),
    )
  ]
    where
      marked : (c.sends i).requested_cancel ≡ true
      marked = ground (arith, e, v.send_settled i)

  go : (c : Channel Q V) (p : Phase) → sp i ≡ p → CanEmit p → Inv L sp rp c → Sent c (after_emit p)
  go c fresh e can v = fresh-Inv c e v
  go c withdrawn e can v = withdrawn-Inv c e v
  go c emitted e can v = absurd can
  go c finished e can v = absurd can

  -- A connection that may emit does so: `send` returns, and the invariant holds with the phase of
  -- the node moved on.
  pub send-Inv :
      (c : Channel Q V)
      → CanEmit (sp i)
      → Inv L sp rp c
      → (c' : Channel Q V) × (send L i c ≡ some c') × Inv L (update sp i (after_emit (sp i))) rp c'
  send-Inv c = go c (sp i) refl
