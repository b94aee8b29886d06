-- ===== src/Channel/System.antt =====
-- A channel of include/sl/exec/algo/sync/channel.hpp among its clients: connections that emit and are
-- cancelled in any order, and selects that other cases may finish in between.
use serious_execution_librar.Prelude.{ℕ, ◌≡◌, false, some, [], arith, update, subst, sym, ◌∙◌}
use mathlib.Core.Option.{some-injective}
use serious_execution_librar.Intrusive.{IntrusiveList}
use serious_execution_librar.Channel.{Channel, send, receive, close, unsend, unreceive}
use serious_execution_librar.Channel.Invariant.{
  Phase, fresh, after_emit, after_cancel, CanEmit, CanCancel, Inv,
}
use serious_execution_librar.Channel.Sending.{send-Inv}
use serious_execution_librar.Channel.Receiving.{receive-Inv}
use serious_execution_librar.Channel.Ending.{unsend-Inv, unreceive-Inv, close-Inv}

pub record System (Q V : Type 0) : Type 0 where
  pub chan : Channel Q V
  pub senders : ℕ → Phase
  pub receivers : ℕ → Phase

module _ {Q V : Type 0} (L : IntrusiveList Q) where
  -- A new channel, and connections to it in which nothing has happened.
  abbrev pub IsNew : System Q V → Type 0
  IsNew s =
      (s.chan.sendq ≡ L.empty)
      × (s.chan.recvq ≡ L.empty)
      × (s.chan.is_closed ≡ false)
      × (s.chan.log ≡ [])
      × ((i : ℕ) → (s.chan.sends i).queued_in ≡ false)
      × ((i : ℕ) → (s.chan.sends i).requested_cancel ≡ false)
      × ((j : ℕ) → (s.chan.recvs j).queued_in ≡ false)
      × ((j : ℕ) → (s.chan.recvs j).requested_cancel ≡ false)
      × ((i : ℕ) → s.senders i ≡ fresh)
      × ((j : ℕ) → s.receivers j ≡ fresh)

  -- One operation under the mutex, or a flag claimed by a case that is not of this channel.
  pub data Step (s : System Q V) : System Q V → Type 0 where
    emit_send :
        (i : ℕ) {c : Channel Q V}
        → CanEmit (s.senders i)
        → send L i s.chan ≡ some c
        → Step s (record s { chan = c; senders = update s.senders i (after_emit (s.senders i)) })
    emit_receive :
        (j : ℕ) {c : Channel Q V}
        → CanEmit (s.receivers j)
        → receive L j s.chan ≡ some c
        → Step s
            (record s { chan = c; receivers = update s.receivers j (after_emit (s.receivers j)) })
    cancel_send :
        (i : ℕ)
        → CanCancel (s.senders i)
        → Step s (record s {
          chan = unsend L i s.chan;
          senders = update s.senders i (after_cancel (s.senders i));
        })
    cancel_receive :
        (j : ℕ)
        → CanCancel (s.receivers j)
        → Step s (record s {
          chan = unreceive L j s.chan;
          receivers = update s.receivers j (after_cancel (s.receivers j));
        })
    emit_close : Step s (record s { chan = close L s.chan })
    claim_elsewhere :
        (a : ℕ)
        → s.chan.done a ≡ 0
        → Step s (record s { chan = record s.chan { done = update s.chan.done a 1 } })

  pub data Reach (s : System Q V) : System Q V → Type 0 where
    here : Reach s s
    next : {t u : System Q V} → Reach s t → Step t u → Reach s u

  abbrev pub SystemInv : System Q V → Type 0
  SystemInv s = Inv L s.senders s.receivers s.chan

  pub IsNew-Inv : (s : System Q V) → IsNew s → SystemInv s
  IsNew-Inv s (sq, rq, closed, log, sl, sr, rl, rr, ps, pr) = record {
    send_linked = λ i. ground (arith, sq, L.to_list-empty, sl i);
    recv_linked = λ j. ground (arith, rq, L.to_list-empty, rl j);
    send_settled = λ i. ground (arith, log, ps i, sl i, sr i);
    recv_settled = λ j. ground (arith, log, pr j, rl j, rr j);
    no_receivers = λ h. cc;
  }

  pub Step-Inv : {s t : System Q V} → Step s t → SystemInv s → SystemInv t
  Step-Inv {s} (emit_send i can e) v =
      let (c', e', v') = send-Inv L s.senders s.receivers i s.chan can v in
      subst (Inv L (update s.senders i (after_emit (s.senders i))) s.receivers)
        (some-injective _ _ (sym e' ∙ e)) v'
  Step-Inv {s} (emit_receive j can e) v =
      let (c', e', v') = receive-Inv L s.senders s.receivers j s.chan can v in
      subst (Inv L s.senders (update s.receivers j (after_emit (s.receivers j))))
        (some-injective _ _ (sym e' ∙ e)) v'
  Step-Inv {s} (cancel_send i can) v = unsend-Inv L s.senders s.receivers i s.chan can v
  Step-Inv {s} (cancel_receive j can) v = unreceive-Inv L s.senders s.receivers j s.chan can v
  Step-Inv {s} emit_close v = close-Inv L s.senders s.receivers s.chan v
  Step-Inv (claim_elsewhere a e) v = record {
    send_linked = v.send_linked;
    recv_linked = v.recv_linked;
    send_settled = v.send_settled;
    recv_settled = v.recv_settled;
    no_receivers = v.no_receivers;
  }

  pub Reach-Inv : {s t : System Q V} → IsNew s → Reach s t → SystemInv t
  Reach-Inv {s} new here = IsNew-Inv s new
  Reach-Inv new (next r st) = Step-Inv st (Reach-Inv new r)
