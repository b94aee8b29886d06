-- ===== src/Channel.antt =====
-- include/sl/exec/algo/sync/channel.hpp, `channel_impl`: an unbuffered channel with many senders and
-- receivers, whose nodes may belong to a select. Each operation under the channel's mutex is one
-- function on the state. The nodes, which live in the connections, are tables indexed by numbers.
-- The calls that a callback receives are appended to a log, in the order in which the operation
-- makes them.
pub mod Invariant
mod Sending
mod Receiving
mod Ending
pub mod System
pub mod Completion
pub mod Consensus
pub mod Rendezvous
mod Tests
use serious_execution_librar.Prelude.{
  ℕ, suc, Bool, true, false, not, ◌&&◌, Option, none, some, List, [], ◌∷◌, ◌++◌, map, ◌==◌,
  if◌then◌else◌, length, update, Turn, stop, again, loop,
}
use serious_execution_librar.Intrusive.{IntrusiveList}

-- `channel_node`. `select_done` names the flag of the select that the node belongs to, and
-- `queued_in` says whether it points to the channel, which is the only one here.
pub record Node : Type 0 where
  pub select_done : Option ℕ
  pub queued_in : Bool
  pub requested_cancel : Bool

-- A call of a `channel_slot_callback`. The first field of a `set_value` tells
-- `set_value_skip_done` from `set_value`; the next one names the node.
pub data Call (V : Type 0) : Type 0 where
  send_value : Bool → ℕ → Call V
  send_error send_null : ℕ → Call V
  recv_value : Bool → ℕ → V → Call V
  recv_error recv_null : ℕ → Call V
  close_value close_error : Call V

-- `channel_impl`, with the nodes, the values that send nodes carry, the flags `select_done` that live
-- in selects, and the log of calls.
pub record Channel (Q V : Type 0) : Type 0 where
  pub sendq : Q
  pub recvq : Q
  pub is_closed : Bool
  pub sends : ℕ → Node
  pub recvs : ℕ → Node
  pub values : ℕ → V
  pub done : ℕ → ℕ
  pub log : List (Call V)

-- `is_same_select`: the pointers are equal and the first is not null.
abbrev pub is_same_select : Option ℕ → Option ℕ → Bool
is_same_select none b = false
is_same_select (some a) none = false
is_same_select (some a) (some b) = a == b

-- What `kcas` promises for one and for two flags from 0 to 1: all of them or none.
abbrev pub kcas_1 : (ℕ → ℕ) → ℕ → Option (ℕ → ℕ)
kcas_1 done a = if done a == 0 then some (update done a 1) else none

abbrev pub kcas_2 : (ℕ → ℕ) → ℕ → ℕ → Option (ℕ → ℕ)
kcas_2 done a b = if done a == 0 && done b == 0 then some (update (update done a 1) b 1) else none

-- The part of `try_fulfill_impl` that picks the flags to claim: the flags after success.
pub claim : Option ℕ → Option ℕ → (ℕ → ℕ) → Option (ℕ → ℕ)
claim (some a) (some b) done = if a == b then none else kcas_2 done a b
claim (some a) none done = kcas_1 done a
claim none (some b) done = kcas_1 done b
claim none none done = some done

abbrev pub is_some : Option ℕ → Bool
is_some none = false
is_some (some a) = true

-- The node is in a select whose flag is claimed.
abbrev pub is_done : Option ℕ → (ℕ → ℕ) → Bool
is_done none done = false
is_done (some a) done = not (done a == 0)

abbrev pub set_queued : Bool → Node → Node
set_queued b n = record n { queued_in = b }

abbrev pub request_cancel : Node → Node
request_cancel n = record n { requested_cancel = true }

abbrev pub must_enqueue : Option ℕ → (ℕ → Node) → Option ℕ → Bool
must_enqueue d nodes none = true
must_enqueue d nodes (some k) = is_same_select d (nodes k).select_done

-- The first loop of `close`, over the nodes that were moved out of `recvq_`.
pub unlink_all : List ℕ → (ℕ → Node) → ℕ → Node
unlink_all [] nodes = nodes
unlink_all (j ∷ js) nodes = unlink_all js (update nodes j (set_queued false (nodes j)))

module _ {Q V : Type 0} where
  abbrev pub call : Channel Q V → Call V → Channel Q V
  call c e = record c { log = c.log ++ e ∷ [] }

  -- `try_fulfill_impl`: the receiver is called first. Each is told to skip its own check of the flag
  -- if the claim was made for it.
  pub try_fulfill : ℕ → ℕ → Channel Q V → Option (Channel Q V)
  unfolding claim
  try_fulfill i j c = elim (claim (c.sends i).select_done (c.recvs j).select_done c.done) [
    | none ↦ none
    | some done' ↦ some (record c {
      done = done';
      log =
          c.log
          ++ recv_value (is_some (c.recvs j).select_done) j (c.values i)
            ∷ send_value (is_some (c.sends i).select_done) i
            ∷ [];
    })
  ]

module _ {Q V : Type 0} (L : IntrusiveList Q) where
  pub enqueue_send : ℕ → Channel Q V → Channel Q V
  enqueue_send i c = record c {
    sendq = L.push_back c.sendq i;
    sends = update c.sends i (set_queued true (c.sends i));
  }

  -- One round of the loop of `send`.
  pub send_round : ℕ → Channel Q V → Turn (Channel Q V)
  unfolding enqueue_send
  send_round i c = elim (L.pop_front c.recvq) [
    | none ↦ stop (enqueue_send i c)
    | some (j, rest) ↦
        let popped : Channel Q V = record c {
          recvq = rest;
          recvs = update c.recvs j (set_queued false (c.recvs j));
        } in
        elim (try_fulfill i j popped) [
          | some c' ↦ stop c'
          | none ↦
              if is_done (c.recvs j).select_done c.done
              then again (record popped {
                recvs = update c.recvs j (request_cancel (set_queued false (c.recvs j)));
              })
              else stop (record popped {
                recvq = L.push_front rest j;
                recvs = update c.recvs j (set_queued true (c.recvs j));
                sends = update c.sends i (request_cancel (c.sends i));
              })
        ]
  ]

  -- `send`. The fuel is one more than the receivers that wait.
  pub send : ℕ → Channel Q V → Option (Channel Q V)
  unfolding send_round loop
  send i c =
      if c.is_closed
      then some (call c (send_error i))
      else if (c.sends i).requested_cancel
      then some (call c (send_null i))
      else if must_enqueue (c.sends i).select_done c.recvs (L.back c.recvq)
      then some (enqueue_send i c)
      else loop (suc (length (L.to_list c.recvq))) (send_round i) c

  -- `enqueue_impl` of `receive`, which looks at `is_closed_`.
  pub enqueue_recv : ℕ → Channel Q V → Channel Q V
  enqueue_recv j c = if c.is_closed then call c (recv_error j) else record c {
    recvq = L.push_back c.recvq j;
    recvs = update c.recvs j (set_queued true (c.recvs j));
  }

  -- One round of the loop of `receive`.
  pub receive_round : ℕ → Channel Q V → Turn (Channel Q V)
  unfolding enqueue_recv
  receive_round j c = elim (L.pop_front c.sendq) [
    | none ↦ stop (enqueue_recv j c)
    | some (i, rest) ↦
        let popped : Channel Q V = record c {
          sendq = rest;
          sends = update c.sends i (set_queued false (c.sends i));
        } in
        elim (try_fulfill i j popped) [
          | some c' ↦ stop c'
          | none ↦
              if is_done (c.sends i).select_done c.done
              then again (record popped {
                sends = update c.sends i (request_cancel (set_queued false (c.sends i)));
              })
              else stop (record popped {
                sendq = L.push_front rest i;
                sends = update c.sends i (set_queued true (c.sends i));
                recvs = update c.recvs j (request_cancel (c.recvs j));
              })
        ]
  ]

  pub receive : ℕ → Channel Q V → Option (Channel Q V)
  unfolding receive_round enqueue_recv loop
  receive j c =
      if (c.recvs j).requested_cancel
      then some (call c (recv_null j))
      else if must_enqueue (c.recvs j).select_done c.sends (L.back c.sendq)
      then some (enqueue_recv j c)
      else loop (suc (length (L.to_list c.sendq))) (receive_round j) c

  pub close : Channel Q V → Channel Q V
  unfolding unlink_all
  close c = if c.is_closed then call c close_error else record c {
    is_closed = true;
    recvq = L.empty;
    recvs = unlink_all (L.to_list c.recvq) c.recvs;
    log = (c.log ++ map recv_error (L.to_list c.recvq)) ++ close_value ∷ [];
  }

  -- `un_impl` for the queue of senders: the second test is `std::exchange(requested_cancel, true)`.
  pub unsend : ℕ → Channel Q V → Channel Q V
  unsend i c =
      let c' : Channel Q V =
        if (c.sends i).queued_in
        then record c {
          sendq = L.erase c.sendq i;
          sends = update c.sends i (request_cancel (set_queued false (c.sends i)));
        }
        else c in
      let c'' : Channel Q V = record c' {
        sends = update c'.sends i (request_cancel (c'.sends i));
      } in
      if (c'.sends i).requested_cancel then call c'' (send_null i) else c''

  -- `un_impl` for the queue of receivers.
  pub unreceive : ℕ → Channel Q V → Channel Q V
  unreceive j c =
      let c' : Channel Q V =
        if (c.recvs j).queued_in
        then record c {
          recvq = L.erase c.recvq j;
          recvs = update c.recvs j (request_cancel (set_queued false (c.recvs j)));
        }
        else c in
      let c'' : Channel Q V = record c' {
        recvs = update c'.recvs j (request_cancel (c'.recvs j));
      } in
      if (c'.recvs j).requested_cancel then call c'' (recv_null j) else c''
