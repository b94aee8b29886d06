-- ===== src/Channel/Completion.antt =====
-- The callbacks of include/sl/exec/algo/sync/channel.hpp: when and how often they are called, over
-- orders of operations.
use serious_execution_librar.Prelude.{ℕ, ◌≤◌, ◌≡◌, Bool, List, true, false, arith, count, count_if}
use serious_execution_librar.Intrusive.{IntrusiveList}
use serious_execution_librar.Channel.{Node, Call, Channel}
use serious_execution_librar.Channel.Invariant.{Phase, finished, names_send, names_recv, Inv}
use serious_execution_librar.Channel.System.{System, IsNew, Reach, Reach-Inv}

-- A connection of the channel, which sends or receives, by the number of its node.
pub data Connection : Type 0 where
  sending receiving : ℕ → Connection

abbrev pub number : Connection → ℕ
number (sending i) = i
number (receiving j) = j

module _ {Q V : Type 0} where
  abbrev pub phase_of : Connection → System Q V → Phase
  phase_of (sending i) t = t.senders i
  phase_of (receiving j) t = t.receivers j

  abbrev pub node_of : Connection → System Q V → Node
  node_of (sending i) t = t.chan.sends i
  node_of (receiving j) t = t.chan.recvs j

  abbrev pub queue_of : IntrusiveList Q → Connection → System Q V → List ℕ
  queue_of L (sending i) t = L.to_list t.chan.sendq
  queue_of L (receiving j) t = L.to_list t.chan.recvq

-- The calls of the callback of a connection.
abbrev pub names : {V : Type 0} → Connection → Call V → Bool
names (sending i) = names_send i
names (receiving j) = names_recv j

module _ {Q V : Type 0} (L : IntrusiveList Q) {s t : System Q V} (new : IsNew L s)
    (r : Reach L s t) where
  -- A connection that was both emitted and cancelled, in either order and whatever happened in between,
  -- has had exactly one call of its callback.
  pub callback_exactly_once :
      (x : Connection) → phase_of x t ≡ finished → count_if (names x) t.chan.log ≡ 1
  callback_exactly_once (sending i) h =
      let v : Inv L t.senders t.receivers t.chan = Reach-Inv L new r in
      ground (arith, v.send_settled i, h)
  callback_exactly_once (receiving j) h =
      let v : Inv L t.senders t.receivers t.chan = Reach-Inv L new r in
      ground (arith, v.recv_settled j, h)

  -- A node that points to the channel is linked in its queue once, is not marked for cancellation and has
  -- had no call of its callback: the assertions of `un_impl` and of `close` hold.
  pub queued_pending :
      (x : Connection)
      → (node_of x t).queued_in ≡ true
      → (count (number x) (queue_of L x t) ≡ 1)
        × ((node_of x t).requested_cancel ≡ false)
        × (count_if (names x) t.chan.log ≡ 0)
  queued_pending (sending i) h =
      let v : Inv L t.senders t.receivers t.chan = Reach-Inv L new r in
      ground (arith, v.send_linked i, v.send_settled i)
  queued_pending (receiving j) h =
      let v : Inv L t.senders t.receivers t.chan = Reach-Inv L new r in
      ground (arith, v.recv_linked j, v.recv_settled j)

module _ {Q V : Type 0} (L : IntrusiveList Q) {s t : System Q V} (new : IsNew L s) (r : Reach L s t)
    (i j : ℕ) where
  -- After any sequence of operations on a new channel, each send node and each receive node has had
  -- at most one call of its callback.
  pub callback_at_most_once :
      (count_if (names_send i) t.chan.log ≤ 1) × (count_if (names_recv j) t.chan.log ≤ 1)
  callback_at_most_once =
      let v : Inv L t.senders t.receivers t.chan = Reach-Inv L new r in
      (ground (arith, v.send_settled i), ground (arith, v.recv_settled j))
