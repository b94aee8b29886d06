-- ===== src/Channel/Consensus/Rounds.antt =====
-- The loops of `send` and `receive` in include/sl/exec/algo/sync/channel.hpp and the invariant on flags.
use serious_execution_librar.Prelude.{
  ℕ, ◌≡◌, inl, inr, false, Option, some, [], ◌∷◌, ◌++◌, arith, count_if-append, update, subst, sym,
  ◌∙◌, Bool-cases, Option-cases, Kept,
}
use mathlib.Core.Option.{some-injective}
use serious_execution_librar.Intrusive.{IntrusiveList}
use serious_execution_librar.Channel.{
  Channel, is_some, is_done, set_queued, send_value, recv_value, recv_error, try_fulfill, claim,
  send_round, enqueue_send, receive_round, enqueue_recv,
}
use serious_execution_librar.Channel.Consensus.Claims.{wins, Consensus, claim_lem}

module _ {Q V : Type 0} (L : IntrusiveList Q) (ss rs : ℕ → Option ℕ) where
  abbrev pub C : Channel Q V → Type 0
  C = Consensus ss rs

  try_fulfill-Consensus : (i j : ℕ) (c c' : Channel Q V) → try_fulfill i j c ≡ some c' → C c → C c'
  unfolding try_fulfill
  try_fulfill-Consensus i j c c' e v =
      elim (Option-cases (claim (c.sends i).select_done (c.recvs j).select_done c.done)) [
        | inl f ↦ absurd (ground arith)
        | inr (done', f) ↦
            subst C (some-injective _ _ (sym (rw (f, try_fulfill)) ∙ e)) (fulfilled done' f)
      ]
    where
      fulfilled :
          (done' : ℕ → ℕ)
          → claim (c.sends i).select_done (c.recvs j).select_done c.done ≡ some done'
          → C (record c {
            done = done';
            log =
                c.log
                ++ recv_value (is_some (c.recvs j).select_done) j (c.values i)
                  ∷ send_value (is_some (c.sends i).select_done) i
                  ∷ [];
          })
      fulfilled done' f = record {
        send_select = v.send_select;
        recv_select = v.recv_select;
        claimed = λ a. ground (
          arith,
          v.claimed a,
          v.send_select i,
          v.recv_select j,
          claim_lem (c.sends i).select_done (c.recvs j).select_done c.done done' f v.flag a,
          count_if-append (wins ss rs a) c.log (
              recv_value (is_some (c.recvs j).select_done) j (c.values i)
              ∷ send_value (is_some (c.sends i).select_done) i
              ∷ []),
        );
        flag = λ a.
            (claim_lem (c.sends i).select_done (c.recvs j).select_done c.done done' f v.flag a).0;
      }

  pub enqueue_send-Consensus : (i : ℕ) (c : Channel Q V) → C c → C (enqueue_send L i c)
  unfolding enqueue_send
  enqueue_send-Consensus i c v = record {
    send_select = λ k. ground (arith, v.send_select k);
    recv_select = v.recv_select;
    claimed = v.claimed;
    flag = v.flag;
  }

  pub enqueue_recv-Consensus : (j : ℕ) (c : Channel Q V) → C c → C (enqueue_recv L j c)
  unfolding enqueue_recv
  enqueue_recv-Consensus j c v = record {
    send_select = λ k. ground (arith, v.send_select k);
    recv_select = λ k. ground (arith, v.recv_select k);
    claimed =
        λ a. ground (arith, v.claimed a, count_if-append (wins ss rs a) c.log (recv_error j ∷ []));
    flag = λ a. ground (arith, v.flag a);
  }

  pub send_round-Consensus : (i : ℕ) (c : Channel Q V) → C c → Kept C (send_round L i c)
  unfolding send_round
  send_round-Consensus i c v = elim (L.pop_front_lem c.recvq) [
    | inl (none_left, nil) ↦ rw (none_left, send_round) (enqueue_send-Consensus i c v)
    | inr (j, rest, popped, cons) ↦ go j rest popped
  ]
    where
      unlinked :
          (j : ℕ) (rest : Q)
          → C (record c { recvq = rest; recvs = update c.recvs j (set_queued false (c.recvs j)) })
      unlinked j rest = record {
        send_select = v.send_select;
        recv_select = λ k. ground (arith, v.recv_select k);
        claimed = v.claimed;
        flag = v.flag;
      }

      go : (j : ℕ) (rest : Q) → L.pop_front c.recvq ≡ some (j, rest) → Kept C (send_round L i c)
      go j rest popped =
          elim (Option-cases (
            try_fulfill i j (record c {
              recvq = rest;
              recvs = update c.recvs j (set_queued false (c.recvs j));
            }))) [
              | inr (c', e) ↦
                  rw (popped, e, send_round) (try_fulfill-Consensus i j _ c' e (unlinked j rest))
              | inl e ↦ elim (Bool-cases (is_done (c.recvs j).select_done c.done)) [
                | inl d ↦
                    rw (popped, e, d, send_round)
                      (record {
                        send_select = v.send_select;
                        recv_select = λ k. ground (arith, v.recv_select k);
                        claimed = v.claimed;
                        flag = v.flag;
                      })
                | inr d ↦
                    rw (popped, e, d, send_round)
                      (record {
                        send_select = λ k. ground (arith, v.send_select k);
                        recv_select = λ k. ground (arith, v.recv_select k);
                        claimed = v.claimed;
                        flag = v.flag;
                      })
              ]
            ]

  pub receive_round-Consensus : (j : ℕ) (c : Channel Q V) → C c → Kept C (receive_round L j c)
  unfolding receive_round
  receive_round-Consensus j c v = elim (L.pop_front_lem c.sendq) [
    | inl (none_left, nil) ↦ rw (none_left, receive_round) (enqueue_recv-Consensus j c v)
    | inr (i, rest, popped, cons) ↦ go i rest popped
  ]
    where
      unlinked :
          (i : ℕ) (rest : Q)
          → C (record c { sendq = rest; sends = update c.sends i (set_queued false (c.sends i)) })
      unlinked i rest = record {
        send_select = λ k. ground (arith, v.send_select k);
        recv_select = v.recv_select;
        claimed = v.claimed;
        flag = v.flag;
      }

      go : (i : ℕ) (rest : Q) → L.pop_front c.sendq ≡ some (i, rest) → Kept C (receive_round L j c)
      go i rest popped =
          elim (Option-cases (
            try_fulfill i j (record c {
              sendq = rest;
              sends = update c.sends i (set_queued false (c.sends i));
            }))) [
              | inr (c', e) ↦
                  rw (popped, e, receive_round) (try_fulfill-Consensus i j _ c' e (unlinked i rest))
              | inl e ↦ elim (Bool-cases (is_done (c.sends i).select_done c.done)) [
                | inl d ↦
                    rw (popped, e, d, receive_round)
                      (record {
                        send_select = λ k. ground (arith, v.send_select k);
                        recv_select = v.recv_select;
                        claimed = v.claimed;
                        flag = v.flag;
                      })
                | inr d ↦
                    rw (popped, e, d, receive_round)
                      (record {
                        send_select = λ k. ground (arith, v.send_select k);
                        recv_select = λ k. ground (arith, v.recv_select k);
                        claimed = v.claimed;
                        flag = v.flag;
                      })
              ]
            ]
