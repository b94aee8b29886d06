-- ===== src/Channel/Rendezvous.antt =====
-- The channel of include/sl/exec/algo/sync/channel.hpp for operations outside of a select: the contract
-- of DESIGN.md, a rendezvous in the order of arrival.
use serious_execution_librar.Prelude.{
  ℕ, ◌≡◌, inl, inr, refl, Bool, true, false, none, some, List, [], ◌∷◌, ◌++◌, arith, if◌then◌else◌,
  update, Bool-cases, last?, loop,
}
use serious_execution_librar.Intrusive.{IntrusiveList}
use serious_execution_librar.Channel.{
  Call, Channel, call, set_queued, request_cancel, send_value, recv_value, send_error, recv_error,
  try_fulfill, claim, send, send_round, enqueue_send, receive, receive_round, enqueue_recv,
}

-- Who waits, in order of arrival, whether the channel is closed, and the calls made so far.
pub record View (V : Type 0) : Type 0 where
  pub senders : List ℕ
  pub receivers : List ℕ
  pub closed : Bool
  pub calls : List (Call V)

abbrev pub view : {Q V : Type 0} → IntrusiveList Q → Channel Q V → View V
view L c = record {
  senders = L.to_list c.sendq;
  receivers = L.to_list c.recvq;
  closed = c.is_closed;
  calls = c.log;
}

module _ {V : Type 0} where
  -- The oldest receiver takes the value, or the sender waits.
  meet_receiver : ℕ → V → List ℕ → View V → View V
  meet_receiver i x [] a = record a { senders = a.senders ++ i ∷ [] }
  meet_receiver i x (j ∷ rest) a = record a {
    receivers = rest;
    calls = a.calls ++ recv_value false j x ∷ send_value false i ∷ [];
  }

  -- A closed channel refuses to send.
  pub spec_send : ℕ → V → View V → View V
  unfolding meet_receiver
  spec_send i x a =
      if a.closed
      then record a { calls = a.calls ++ send_error i ∷ [] }
      else meet_receiver i x a.receivers a

  -- The oldest sender's value is taken, also from a closed channel; with none the receiver waits, or
  -- is refused if the channel is closed.
  meet_sender : ℕ → (ℕ → V) → List ℕ → View V → View V
  meet_sender j values [] a =
      if a.closed
      then record a { calls = a.calls ++ recv_error j ∷ [] }
      else record a { receivers = a.receivers ++ j ∷ [] }
  meet_sender j values (i ∷ rest) a = record a {
    senders = rest;
    calls = a.calls ++ recv_value false j (values i) ∷ send_value false i ∷ [];
  }

  pub spec_receive : ℕ → (ℕ → V) → View V → View V
  unfolding meet_sender
  spec_receive j values a = meet_sender j values a.senders a

last?-cons : (x : ℕ) (xs : List ℕ) → (k : ℕ) × (last? (x ∷ xs) ≡ some k)
last?-cons x [] = (x, refl)
last?-cons x (y ∷ xs) = last?-cons y xs

module _ {Q V : Type 0} (L : IntrusiveList Q) where
  -- Outside of a select, `send` does what the contract says: with node `i` not marked for
  -- cancellation and neither `i` nor a waiting receiver in a select, it returns, and the queues and
  -- calls are those of `spec_send`.
  pub send-refines :
      (i : ℕ) (c : Channel Q V)
      → (c.sends i).requested_cancel ≡ false
      → (c.sends i).select_done ≡ none
      → ((j : ℕ) → (c.recvs j).select_done ≡ none)
      → (c' : Channel Q V) × (send L i c ≡ some c')
        × (view L c' ≡ spec_send i (c.values i) (view L c))
  unfolding send send_round loop spec_send try_fulfill claim
  send-refines i c unmarked alone plain = elim (Bool-cases c.is_closed) [
    | inl closed ↦ (call c (send_error i), ground arith, ground arith)
    | inr open_ ↦ elim (L.pop_front_lem c.recvq) [
      | inl (e, nil) ↦ (
        enqueue_send L i c,
        ground (arith, L.back_lem c.recvq, nil),
        ground (arith, L.to_list-push_back c.sendq i, nil),
      )
      | inr (j, rest, e, cons) ↦
          let (k, back) = last?-cons j (L.to_list rest) in
          (
            record c {
              recvq = rest;
              recvs = update c.recvs j (set_queued false (c.recvs j));
              log = c.log ++ recv_value false j (c.values i) ∷ send_value false i ∷ [];
            },
            ground (arith, L.back_lem c.recvq, back, cons, e, plain j, plain k),
            ground (arith, cons),
          )
    ]
  ]

  -- With node `j` not marked for cancellation and neither `j` nor a waiting sender in a select,
  -- `receive` returns, and the queues and calls are those of `spec_receive`: it takes the value of the
  -- oldest waiting sender, even on a closed channel; without one, a closed channel gives an error at
  -- once, and an open one keeps `j`. (DESIGN.md says that a receive after close fails at once.)
  pub receive-refines :
      (j : ℕ) (c : Channel Q V)
      → (c.recvs j).requested_cancel ≡ false
      → (c.recvs j).select_done ≡ none
      → ((i : ℕ) → (c.sends i).select_done ≡ none)
      → (c' : Channel Q V) × (receive L j c ≡ some c')
        × (view L c' ≡ spec_receive j c.values (view L c))
  unfolding receive receive_round loop spec_receive try_fulfill claim
  receive-refines j c unmarked alone plain = elim (L.pop_front_lem c.sendq) [
    | inl (e, nil) ↦ (
      enqueue_recv L j c,
      ground (arith, L.back_lem c.sendq, nil),
      ground (arith, L.to_list-push_back c.recvq j, nil),
    )
    | inr (i, rest, e, cons) ↦
        let (k, back) = last?-cons i (L.to_list rest) in
        (
          record c {
            sendq = rest;
            sends = update c.sends i (set_queued false (c.sends i));
            log = c.log ++ recv_value false j (c.values i) ∷ send_value false i ∷ [];
          },
          ground (arith, L.back_lem c.sendq, back, cons, e, plain i, plain k),
          ground (arith, cons),
        )
  ]

  -- A sender is lost. On an open channel let node `i`, not queued and not marked for cancellation, send
  -- in select `a`, whose flag is 0, while the front receiver `j` belongs to `a` too and the newest
  -- receiver `k` to no select. Then `send` returns with both queues and the calls as they were, and
  -- node `i` is neither queued nor completed but marked for cancellation, although `k` waits for a value.
  pub send-same_select :
      (i a j k : ℕ) (rest : Q) (c : Channel Q V)
      → c.is_closed ≡ false
      → (c.sends i).requested_cancel ≡ false
      → (c.sends i).queued_in ≡ false
      → (c.sends i).select_done ≡ some a
      → L.pop_front c.recvq ≡ some (j, rest)
      → (c.recvs j).select_done ≡ some a
      → c.done a ≡ 0
      → L.back c.recvq ≡ some k
      → (c.recvs k).select_done ≡ none
      → (c' : Channel Q V) × (send L i c ≡ some c')
        × (view L c' ≡ view L c)
        × ((c'.sends i).queued_in ≡ false)
        × ((c'.sends i).requested_cancel ≡ true)
  unfolding send send_round loop try_fulfill claim
  send-same_select i a j k rest c open_ unmarked unqueued sel popped same idle back other =
      elim (L.pop_front_lem c.recvq) [
        | inl (e, nil) ↦ absurd (cc)
        | inr (j', rest', e, cons) ↦ (
          record c {
            recvq = L.push_front rest j;
            recvs = update c.recvs j (set_queued true (c.recvs j));
            sends = update c.sends i (request_cancel (c.sends i));
          },
          ground arith,
          ground (arith, L.to_list-push_front rest j, cons),
          ground arith,
          ground arith,
        )
      ]
