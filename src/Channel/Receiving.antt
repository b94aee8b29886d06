-- ===== src/Channel/Receiving.antt =====
-- `receive` of include/sl/exec/algo/sync/channel.hpp and the invariant: its branches and its loop.
use serious_execution_librar.Prelude.{
  ℕ, suc, ◌+◌, ◌≡◌, refl, inl, inr, Bool, true, false, some, [], ◌∷◌, ◌++◌, arith, ◌==◌, bit, count,
  count_if, count_if-append, length, update, Bool-cases, Outcome, loop_lem, ap, subst,
}
use serious_execution_librar.Intrusive.{IntrusiveList}
use serious_execution_librar.Channel.{
  Call, Channel, call, is_done, must_enqueue, set_queued, request_cancel, recv_value, send_value,
  receive_round, receive, enqueue_recv, recv_error, recv_null,
}
use serious_execution_librar.Channel.Invariant.{
  Phase, fresh, emitted, withdrawn, finished, after_emit, CanEmit, names_send, names_recv, Settled,
  Inv,
}
use serious_execution_librar.Channel.Sending.{try_fulfill-cases}

module _ {Q V : Type 0} (L : IntrusiveList Q) (sp rp : ℕ → Phase) (j : ℕ) where
  abbrev Before : Channel Q V → Type 0
  Before c = Inv L sp rp c × (rp j ≡ fresh)

  abbrev After : Channel Q V → Type 0
  After c = Inv L sp (update rp j emitted) c

  abbrev Received : Channel Q V → Phase → Type 0
  Received c p = (c' : Channel Q V) × (receive L j c ≡ some c') × Inv L sp (update rp j p) c'

  calls-Inv :
      (c : Channel Q V) (p : Phase) (e : Call V)
      → Inv L sp rp c
      → ((k : ℕ)
          → Settled
              (update rp j p k)
              (c.recvs k)
              (count_if (names_recv k) c.log + bit (names_recv k e)))
      → ((k : ℕ) → bit (names_send k e) ≡ 0)
      → Inv L sp (update rp j p) (record c { log = c.log ++ e ∷ [] })
  calls-Inv c p e v r s = record {
    send_linked = v.send_linked;
    recv_linked = v.recv_linked;
    send_settled =
        λ k. ground (arith, v.send_settled k, s k, count_if-append (names_send k) c.log (e ∷ []));
    recv_settled = λ k. ground (arith, r k, count_if-append (names_recv k) c.log (e ∷ []));
    no_receivers = v.no_receivers;
  }

  enqueue_recv-Inv : (c : Channel Q V) → Before c → After (enqueue_recv L j c)
  unfolding enqueue_recv
  enqueue_recv-Inv c (v, e) = elim (Bool-cases c.is_closed) as (λ x. After (enqueue_recv L j c)) [
    | inl closed ↦ subst After (ground arith) (
        calls-Inv c emitted (recv_error j) v (λ k. ground (arith, e, v.recv_settled k))
          (λ k. omega arith))
    | inr open_ ↦
        let pushed : Channel Q V = record c {
          recvq = L.push_back c.recvq j;
          recvs = update c.recvs j (set_queued true (c.recvs j));
        } in
        let same : pushed ≡ enqueue_recv L j c = ground arith in
        subst After same (record {
          send_linked = v.send_linked;
          recv_linked = λ k. ground (
            arith,
            L.to_list-push_back c.recvq j,
            count_if-append (λ x. x == k) (L.to_list c.recvq) (j ∷ []),
            v.recv_linked k,
            v.recv_settled k,
            e,
          );
          send_settled = v.send_settled;
          recv_settled = λ k. ground (arith, v.recv_settled k, e);
          no_receivers = λ closed. cc;
        })
  ]

  module _ (c : Channel Q V) (before : Before c) (i : ℕ) (rest : Q)
      (cons : L.to_list c.sendq ≡ i ∷ L.to_list rest) where
    inv : Inv L sp rp c
    inv = before.0

    pop-count : (k : ℕ) → bit (i == k) + count k (L.to_list rest) ≡ bit (c.sends k).queued_in
    pop-count k = ground (arith, ap (count k) cons, inv.send_linked k)

    fulfilled-Inv :
        (done' : ℕ → ℕ) (skip_r skip_s : Bool)
        → After (record c {
          sendq = rest;
          sends = update c.sends i (set_queued false (c.sends i));
          done = done';
          log = c.log ++ recv_value skip_r j (c.values i) ∷ send_value skip_s i ∷ [];
        })
    fulfilled-Inv done' skip_r skip_s = record {
      send_linked = λ k. ground (arith, pop-count k);
      recv_linked = inv.recv_linked;
      send_settled = λ k. ground (
        arith,
        pop-count k,
        inv.send_settled k,
        count_if-append (names_send k) c.log
            (recv_value skip_r j (c.values i) ∷ send_value skip_s i ∷ []),
      );
      recv_settled = λ k. ground (
        arith,
        before.1,
        inv.recv_settled k,
        count_if-append (names_recv k) c.log
            (recv_value skip_r j (c.values i) ∷ send_value skip_s i ∷ []),
      );
      no_receivers = inv.no_receivers;
    }

    passed_over-Inv : Before (record c {
      sendq = rest;
      sends = update c.sends i (request_cancel (set_queued false (c.sends i)));
    })
    passed_over-Inv = (
      record {
        send_linked = λ k. ground (arith, pop-count k);
        recv_linked = inv.recv_linked;
        send_settled = λ k. ground (arith, pop-count k, inv.send_settled k);
        recv_settled = inv.recv_settled;
        no_receivers = inv.no_receivers;
      },
      before.1,
    )

    put_back-Inv : After (record c {
      sendq = L.push_front rest i;
      sends = update c.sends i (set_queued true (c.sends i));
      recvs = update c.recvs j (request_cancel (c.recvs j));
    })
    put_back-Inv = record {
      send_linked = λ k. ground (arith, pop-count k, L.to_list-push_front rest i);
      recv_linked = λ k. ground (arith, inv.recv_linked k);
      send_settled = λ k. ground (arith, pop-count k, inv.send_settled k);
      recv_settled = λ k. ground (arith, before.1, inv.recv_settled k);
      no_receivers = inv.no_receivers;
    }

    round-Outcome :
        (popped : L.pop_front c.sendq ≡ some (i, rest))
        → Outcome Before After (λ c. length (L.to_list c.sendq)) c (receive_round L j c)
    unfolding receive_round
    round-Outcome popped =
        elim (try_fulfill-cases i j
          (record c { sendq = rest; sends = update c.sends i (set_queued false (c.sends i)) })) [
            | inr (done', skip_r, skip_s, e) ↦
                rw (popped, e, receive_round) (fulfilled-Inv done' skip_r skip_s)
            | inl e ↦ elim (Bool-cases (is_done (c.sends i).select_done c.done)) [
              | inl d ↦
                  rw (popped, e, d, receive_round) (passed_over-Inv, omega (arith, ap length cons))
              | inr d ↦ rw (popped, e, d, receive_round) put_back-Inv
            ]
          ]

  receive_round-Outcome :
      (c : Channel Q V)
      → Before c
      → Outcome Before After (λ c. length (L.to_list c.sendq)) c (receive_round L j c)
  unfolding receive_round
  receive_round-Outcome c before = elim (L.pop_front_lem c.sendq) [
    | inl (none_left, nil) ↦ rw (none_left, receive_round) (enqueue_recv-Inv c before)
    | inr (i, rest, popped, cons) ↦ round-Outcome c before i rest cons popped
  ]

  fresh-Inv : (c : Channel Q V) → rp j ≡ fresh → Inv L sp rp c → Received c emitted
  unfolding receive
  fresh-Inv c e v =
      elim (Bool-cases (must_enqueue (c.recvs j).select_done c.sends (L.back c.sendq))) [
        | inl wait ↦ (enqueue_recv L j c, ground (arith, unmarked), enqueue_recv-Inv c (v, e))
        | inr meet ↦
            let (c', returns, inv') =
              loop_lem Before After (λ c. length (L.to_list c.sendq)) (receive_round L j)
                receive_round-Outcome (suc (length (L.to_list c.sendq))) c (omega arith) (v, e) in
            (c', ground (arith, unmarked, returns), inv')
      ]
    where
      unmarked : (c.recvs j).requested_cancel ≡ false
      unmarked = ground (arith, e, v.recv_settled j)

  withdrawn-Inv : (c : Channel Q V) → rp j ≡ withdrawn → Inv L sp rp c → Received c finished
  unfolding receive
  withdrawn-Inv c e v = (
    call c (recv_null j),
    ground (arith, marked),
    calls-Inv c finished (recv_null j) v (λ k. ground (arith, e, v.recv_settled k))
        (λ k. omega arith),
  )
    where
      marked : (c.recvs j).requested_cancel ≡ true
      marked = ground (arith, e, v.recv_settled j)

  go :
      (c : Channel Q V) (p : Phase)
      → rp j ≡ p
      → CanEmit p
      → Inv L sp rp c
      → Received c (after_emit p)
  go c fresh e can v = fresh-Inv c e v
  go c withdrawn e can v = withdrawn-Inv c e v
  go c emitted e can v = absurd can
  go c finished e can v = absurd can

  -- A connection that may emit does so: `receive` returns, and the invariant holds with the phase of
  -- the node moved on.
  pub receive-Inv :
      (c : Channel Q V)
      → CanEmit (rp j)
      → Inv L sp rp c
      → (c' : Channel Q V) × (receive L j c ≡ some c')
        × Inv L sp (update rp j (after_emit (rp j))) c'
  receive-Inv c = go c (rp j) refl
