-- ===== src/Channel/Ending.antt =====
-- `unsend`, `unreceive` and `close` of include/sl/exec/algo/sync/channel.hpp and the invariant.
use serious_execution_librar.Prelude.{
  ℕ, ◌+◌, ◌-◌, ◌*◌, ◌≡◌, refl, Bool, false, List, [], ◌∷◌, ◌++◌, map, arith, bit, count, count_if,
  count_if-append, count-delete, update,
}
use serious_execution_librar.Intrusive.{IntrusiveList}
use serious_execution_librar.Channel.{
  Node, Call, Channel, set_queued, unlink_all, close, unsend, unreceive, recv_error, recv_null,
  send_null, close_value, close_error,
}
use serious_execution_librar.Channel.Invariant.{
  Phase, after_cancel, CanCancel, names_send, names_recv, Inv,
}

module _ {Q V : Type 0} (L : IntrusiveList Q) (sp rp : ℕ → Phase) where
  -- `try_cancel` of a sender keeps the invariant, with the phase of the node moved on.
  pub unsend-Inv :
      (i : ℕ) (c : Channel Q V)
      → CanCancel (sp i)
      → Inv L sp rp c
      → Inv L (update sp i (after_cancel (sp i))) rp (unsend L i c)
  unfolding unsend
  unsend-Inv i c can v = record {
    send_linked = λ k. ground (
      arith,
      v.send_linked k,
      v.send_settled i,
      L.to_list-erase c.sendq i,
      count-delete k i (L.to_list c.sendq),
    );
    recv_linked = λ k. ground (arith, v.recv_linked k);
    send_settled = λ k. ground (
      arith,
      v.send_settled k,
      v.send_settled i,
      count_if-append (names_send k) c.log (send_null i ∷ []),
    );
    recv_settled = λ k.
        ground (arith, v.recv_settled k, count_if-append (names_recv k) c.log (send_null i ∷ []));
    no_receivers = λ closed. ground (arith, v.no_receivers);
  }

  -- The same for a receiver.
  pub unreceive-Inv :
      (j : ℕ) (c : Channel Q V)
      → CanCancel (rp j)
      → Inv L sp rp c
      → Inv L sp (update rp j (after_cancel (rp j))) (unreceive L j c)
  unfolding unreceive
  unreceive-Inv j c can v = record {
    send_linked = λ k. ground (arith, v.send_linked k);
    recv_linked = λ k. ground (
      arith,
      v.recv_linked k,
      v.recv_settled j,
      L.to_list-erase c.recvq j,
      count-delete k j (L.to_list c.recvq),
    );
    send_settled = λ k.
        ground (arith, v.send_settled k, count_if-append (names_send k) c.log (recv_null j ∷ []));
    recv_settled = λ k. ground (
      arith,
      v.recv_settled k,
      v.recv_settled j,
      count_if-append (names_recv k) c.log (recv_null j ∷ []),
    );
    no_receivers = λ closed. ground (arith, v.no_receivers, L.to_list-erase c.recvq j);
  }

module _ (V : Type 0) where
  count-recv_error :
      (k : ℕ) (q : List ℕ) → count_if (names_recv {V = V} k) (map recv_error q) ≡ count k q
  count-recv_error k [] = refl
  count-recv_error k (x ∷ q) = ground (arith, count-recv_error k q)

  count_send-recv_error :
      (k : ℕ) (q : List ℕ) → count_if (names_send {V = V} k) (map recv_error q) ≡ 0
  count_send-recv_error k [] = refl
  count_send-recv_error k (x ∷ q) = ground (arith, count_send-recv_error k q)

-- Unlinking a queue changes the flag of its members and nothing else.
pub unlink_all_lem :
    (k : ℕ) (q : List ℕ) (nodes : ℕ → Node)
    → ((unlink_all q nodes k).requested_cancel ≡ (nodes k).requested_cancel)
      × ((unlink_all q nodes k).select_done ≡ (nodes k).select_done)
      × (bit (unlink_all q nodes k).queued_in ≡ bit (nodes k).queued_in * (1 - count k q))
unfolding unlink_all
unlink_all_lem k [] nodes = ground arith
unlink_all_lem k (x ∷ q) nodes =
    ground (arith, unlink_all_lem k q (update nodes x (set_queued false (nodes x))))

module _ {Q V : Type 0} (L : IntrusiveList Q) (sp rp : ℕ → Phase) where
  calls_log : (c : Channel Q V) → List (Call V)
  calls_log c = (c.log ++ map recv_error (L.to_list c.recvq)) ++ close_value ∷ []

  count-calls_log :
      (p : Call V → Bool) (c : Channel Q V)
      → count_if p (calls_log c)
        ≡ count_if p c.log + count_if p (map recv_error (L.to_list c.recvq)) + bit (p close_value)
  unfolding calls_log
  count-calls_log p c = omega (
    arith,
    count_if-append p (c.log ++ map recv_error (L.to_list c.recvq)) (close_value ∷ []),
    count_if-append p c.log (map recv_error (L.to_list c.recvq)),
  )

  -- `close` completes the receivers that wait, with an error, and keeps the invariant.
  pub close-Inv : (c : Channel Q V) → Inv L sp rp c → Inv L sp rp (close L c)
  unfolding close calls_log
  close-Inv c v = record {
    send_linked = λ k. ground (arith, v.send_linked k);
    recv_linked = λ k.
        ground
          (arith, v.recv_linked k, L.to_list-empty, unlink_all_lem k (L.to_list c.recvq) c.recvs);
    send_settled = λ k. ground (
      arith,
      v.send_settled k,
      count_if-append (names_send k) c.log (close_error ∷ []),
      count-calls_log (names_send k) c,
      count_send-recv_error V k (L.to_list c.recvq),
    );
    recv_settled = λ k. ground (
      arith,
      v.recv_linked k,
      v.recv_settled k,
      unlink_all_lem k (L.to_list c.recvq) c.recvs,
      count_if-append (names_recv k) c.log (close_error ∷ []),
      count-calls_log (names_recv k) c,
      count-recv_error V k (L.to_list c.recvq),
    );
    no_receivers = λ closed. ground (arith, v.no_receivers, L.to_list-empty);
  }
