-- ===== src/Channel/Invariant.antt =====
-- The life of the nodes of channel.hpp: what the flags of a node, its place in a queue and the calls of
-- its callback have to do with each other, and which order of `emit` and `try_cancel` a client keeps.
use serious_execution_librar.Prelude.{
  ℕ, ◌+◌, ◌≡◌, Bool, true, false, [], ◌==◌, bit, count, count_if,
}
use serious_execution_librar.Intrusive.{IntrusiveList}
use serious_execution_librar.Channel.{
  Node, Call, send_value, send_error, send_null, recv_value, recv_error, recv_null, Channel,
}

-- How far a connection is: its methods `emit` and `try_cancel` are called at most once each.
pub data Phase : Type 0 where
  fresh : Phase  -- neither called
  emitted : Phase
  withdrawn : Phase  -- `try_cancel` before `emit`
  finished : Phase  -- both called

abbrev pub after_emit : Phase → Phase
after_emit withdrawn = finished
after_emit finished = finished
after_emit _ = emitted

abbrev pub after_cancel : Phase → Phase
after_cancel fresh = withdrawn
after_cancel withdrawn = withdrawn
after_cancel _ = finished

abbrev pub CanEmit : Phase → Type 0
CanEmit fresh = Unit
CanEmit withdrawn = Unit
CanEmit _ = ⊥

abbrev pub CanCancel : Phase → Type 0
CanCancel fresh = Unit
CanCancel emitted = Unit
CanCancel _ = ⊥

module _ {V : Type 0} where
  abbrev pub names_send : ℕ → Call V → Bool
  names_send i (send_value skip n) = n == i
  names_send i (send_error n) = n == i
  names_send i (send_null n) = n == i
  names_send i _ = false

  abbrev pub names_recv : ℕ → Call V → Bool
  names_recv j (recv_value skip n v) = n == j
  names_recv j (recv_error n) = n == j
  names_recv j (recv_null n) = n == j
  names_recv j _ = false

-- Before `emit` no call; after it a node is queued, marked for a cancellation that is still to come, or
-- completed by one call; after both, completed.
abbrev pub Settled : Phase → Node → ℕ → Type 0
Settled fresh n calls = bit n.queued_in + bit n.requested_cancel + calls ≡ 0
Settled emitted n calls = bit n.queued_in + bit n.requested_cancel + calls ≡ 1
Settled withdrawn n calls = (n.queued_in ≡ false) × (n.requested_cancel ≡ true) × (calls ≡ 0)
Settled finished n calls = (n.queued_in ≡ false) × (n.requested_cancel ≡ true) × (calls ≡ 1)

pub record Inv {Q V : Type 0} (L : IntrusiveList Q) (sp rp : ℕ → Phase) (c : Channel Q V)
    : Type 0 where
  pub send_linked : (i : ℕ) → count i (L.to_list c.sendq) ≡ bit (c.sends i).queued_in
  pub recv_linked : (j : ℕ) → count j (L.to_list c.recvq) ≡ bit (c.recvs j).queued_in
  pub send_settled : (i : ℕ) → Settled (sp i) (c.sends i) (count_if (names_send i) c.log)
  pub recv_settled : (j : ℕ) → Settled (rp j) (c.recvs j) (count_if (names_recv j) c.log)
  pub no_receivers : c.is_closed ≡ true → L.to_list c.recvq ≡ []
