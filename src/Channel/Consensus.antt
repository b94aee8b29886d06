-- ===== src/Channel/Consensus.antt =====
-- The flags `select_done` of include/sl/exec/algo/sync/channel.hpp, while selects and
-- channels are interleaved.
mod Claims
mod Rounds
pub use Claims.{wins}
use serious_execution_librar.Prelude.{
  ℕ, suc, ◌+◌, ◌≤◌, ◌≡◌, ◌⊎◌, inl, inr, refl, Bool, true, false, Option, none, some, List, [], ◌∷◌,
  ◌++◌, map, arith, ◌==◌, bit, length, count_if, count_if-append, update, subst, sym, ap, ◌&&◌, ◌∙◌,
  Bool-cases, Option-cases, Turn, Kept, loop, loop_keep,
}
use mathlib.Core.Option.{some-injective}
use serious_execution_librar.Intrusive.{IntrusiveList}
use serious_execution_librar.Channel.{
  Node, Call, Channel, call, kcas_1, kcas_2, is_some, is_same_select, must_enqueue, is_done,
  set_queued, request_cancel, send_value, recv_value, recv_error, recv_null, send_error, send_null,
  close_value, close_error, try_fulfill, claim, send, send_round, enqueue_send, receive,
  receive_round, enqueue_recv, close, unlink_all, unsend, unreceive,
}
use serious_execution_librar.Channel.Ending.{unlink_all_lem}
use serious_execution_librar.Channel.System.{
  System, Step, emit_send, emit_receive, cancel_send, cancel_receive, emit_close, claim_elsewhere,
  Reach, here, next, IsNew,
}
use Claims.{Consensus}
use Rounds.{
  enqueue_send-Consensus, enqueue_recv-Consensus, send_round-Consensus, receive_round-Consensus,
}

no_wins :
    (V : Type 0) (ss rs : ℕ → Option ℕ) (a : ℕ) (q : List ℕ)
    → count_if (wins {V = V} ss rs a) (map recv_error q) ≡ 0
no_wins V ss rs a [] = refl
no_wins V ss rs a (x ∷ q) = ground (arith, no_wins V ss rs a q)

module _ {Q V : Type 0} (L : IntrusiveList Q) (ss rs : ℕ → Option ℕ) where
  abbrev C : Channel Q V → Type 0
  C = Consensus ss rs

  call-Consensus :
      (c : Channel Q V) (e : Call V) → ((a : ℕ) → bit (wins ss rs a e) ≡ 0) → C c → C (call c e)
  call-Consensus c e no_win v = record {
    send_select = v.send_select;
    recv_select = v.recv_select;
    claimed =
        λ a. ground (arith, v.claimed a, no_win a, count_if-append (wins ss rs a) c.log (e ∷ []));
    flag = v.flag;
  }

  send-Consensus : (i : ℕ) (c c' : Channel Q V) → send L i c ≡ some c' → C c → C c'
  unfolding send
  send-Consensus i c c' e v = elim (Bool-cases c.is_closed) [
    | inl closed ↦
        subst C (some-injective _ _ (ground (arith, e)))
          (call-Consensus c (send_error i) (λ a. omega arith) v)
    | inr open_ ↦ elim (Bool-cases (c.sends i).requested_cancel) [
      | inl marked ↦
          subst C (some-injective _ _ (ground (arith, e)))
            (call-Consensus c (send_null i) (λ a. omega arith) v)
      | inr unmarked ↦
          elim (Bool-cases (must_enqueue (c.sends i).select_done c.recvs (L.back c.recvq))) [
            | inl wait ↦
                subst C (some-injective _ _ (ground (arith, e)))
                  (enqueue_send-Consensus L ss rs i c v)
            | inr meet ↦
                loop_keep C (send_round L i) (send_round-Consensus L ss rs i)
                  (suc (length (L.to_list c.recvq))) c c' (ground (arith, e)) v
          ]
    ]
  ]

  receive-Consensus : (j : ℕ) (c c' : Channel Q V) → receive L j c ≡ some c' → C c → C c'
  unfolding receive
  receive-Consensus j c c' e v = elim (Bool-cases (c.recvs j).requested_cancel) [
    | inl marked ↦
        subst C (some-injective _ _ (ground (arith, e)))
          (call-Consensus c (recv_null j) (λ a. omega arith) v)
    | inr unmarked ↦
        elim (Bool-cases (must_enqueue (c.recvs j).select_done c.sends (L.back c.sendq))) [
          | inl wait ↦
              subst C (some-injective _ _ (ground (arith, e)))
                (enqueue_recv-Consensus L ss rs j c v)
          | inr meet ↦
              loop_keep C (receive_round L j) (receive_round-Consensus L ss rs j)
                (suc (length (L.to_list c.sendq))) c c' (ground (arith, e)) v
        ]
  ]

  unsend-Consensus : (i : ℕ) (c : Channel Q V) → C c → C (unsend L i c)
  unfolding unsend
  unsend-Consensus i c v = record {
    send_select = λ k. ground (arith, v.send_select k, v.send_select i);
    recv_select = λ k. ground (arith, v.recv_select k);
    claimed =
        λ a. ground (arith, v.claimed a, count_if-append (wins ss rs a) c.log (send_null i ∷ []));
    flag = λ a. ground (arith, v.flag a);
  }

  unreceive-Consensus : (j : ℕ) (c : Channel Q V) → C c → C (unreceive L j c)
  unfolding unreceive
  unreceive-Consensus j c v = record {
    send_select = λ k. ground (arith, v.send_select k);
    recv_select = λ k. ground (arith, v.recv_select k, v.recv_select j);
    claimed =
        λ a. ground (arith, v.claimed a, count_if-append (wins ss rs a) c.log (recv_null j ∷ []));
    flag = λ a. ground (arith, v.flag a);
  }

  close-Consensus : (c : Channel Q V) → C c → C (close L c)
  unfolding close
  close-Consensus c v = record {
    send_select = λ k. ground (arith, v.send_select k);
    recv_select =
        λ k. ground (arith, v.recv_select k, unlink_all_lem k (L.to_list c.recvq) c.recvs);
    claimed = λ a. ground (
      arith,
      v.claimed a,
      no_wins V ss rs a (L.to_list c.recvq),
      count_if-append (wins ss rs a) c.log (close_error ∷ []),
      count_if-append (wins ss rs a) (c.log ++ map recv_error (L.to_list c.recvq))
          (close_value ∷ []),
      count_if-append (wins ss rs a) c.log (map recv_error (L.to_list c.recvq)),
    );
    flag = λ a. ground (arith, v.flag a);
  }

  Step-Consensus : {s t : System Q V} → Step L s t → C s.chan → C t.chan
  Step-Consensus {s} (emit_send i {c} can e) v = send-Consensus i s.chan c e v
  Step-Consensus {s} (emit_receive j {c} can e) v = receive-Consensus j s.chan c e v
  Step-Consensus {s} (cancel_send i can) v = unsend-Consensus i s.chan v
  Step-Consensus {s} (cancel_receive j can) v = unreceive-Consensus j s.chan v
  Step-Consensus {s} emit_close v = close-Consensus s.chan v
  Step-Consensus {s} (claim_elsewhere a e) v = record {
    send_select = v.send_select;
    recv_select = v.recv_select;
    claimed = λ b. ground (arith, v.claimed b);
    flag = λ b. ground (arith, v.flag b);
  }

  Reach-Consensus : {s t : System Q V} → C s.chan → Reach L s t → C t.chan
  Reach-Consensus v here = v
  Reach-Consensus v (next r st) = Step-Consensus st (Reach-Consensus v r)

module _ {Q V : Type 0} (L : IntrusiveList Q) {s t : System Q V} (new : IsNew L s)
    (r : Reach L s t) where
  -- After any sequence of operations on a new channel whose selects start with flags 0 or 1, the cases
  -- of this channel that won select `a` are no more than its flag, which is 0 or 1: a select is won
  -- once at most, and not at all by the channel if its flag is still 0.
  pub select_won_once :
      ((b : ℕ) → s.chan.done b ≤ 1)
      → (a : ℕ)
      → (count_if
            (wins (λ i. (s.chan.sends i).select_done) (λ j. (s.chan.recvs j).select_done) a)
            t.chan.log
          ≤ t.chan.done a)
        × (t.chan.done a ≤ 1)
  select_won_once small a = (v.claimed a, v.flag a)
    where
      start :
          Consensus (λ i. (s.chan.sends i).select_done) (λ j. (s.chan.recvs j).select_done) s.chan
      start = record {
        send_select = λ i. refl;
        recv_select = λ j. refl;
        claimed = λ b. ground (arith, new.3);
        flag = small;
      }

      v : Consensus (λ i. (s.chan.sends i).select_done) (λ j. (s.chan.recvs j).select_done) t.chan
      v = Reach-Consensus L _ _ start r
