-- ===== src/Channel/Tests.antt =====
-- Runs of the channel of include/sl/exec/algo/sync/channel.hpp on plain lists, and its theorems at them.
use serious_execution_librar.Prelude.{
  ℕ, ◌+◌, ◌-◌, ◌≤◌, ◌≡◌, ◌==◌, refl, true, false, Option, none, some, List, [], ◌∷◌, arith,
  if◌then◌else◌, count, count_if, update,
}
use serious_execution_librar.Intrusive.{plain_list}
use serious_execution_librar.Channel.{
  Node, Call, Channel, send, receive, close, unsend, unreceive, send_value, recv_value, recv_error,
  close_value, enqueue_recv, set_queued,
}
use serious_execution_librar.Channel.Invariant.{Phase, names_send, names_recv}
use serious_execution_librar.Channel.System.{
  System, emit_send, emit_receive, cancel_send, cancel_receive, Reach, here, next, IsNew,
}
use serious_execution_librar.Channel.Completion.{
  sending, receiving, names, callback_at_most_once, callback_exactly_once, queued_pending,
}
use serious_execution_librar.Channel.Consensus.{wins, select_won_once}
use serious_execution_librar.Channel.Rendezvous.{
  view, send-refines, receive-refines, spec_send, spec_receive, send-same_select,
}

abbrev fresh_node : Option ℕ → Node
fresh_node s = record { select_done = s; queued_in = false; requested_cancel = false }

-- Sender i carries 100 + i. Nodes 0 are outside of a select, nodes 1 and 2 in selects 1 and 2.
abbrev new_channel : Channel (List ℕ) ℕ
new_channel = record {
  sendq = [];
  recvq = [];
  is_closed = false;
  sends = λ i. fresh_node (if i == 0 then none else some i);
  recvs = λ j. fresh_node (if j == 0 then none else some (3 - j));
  values = λ i. 100 + i;
  done = λ a. 0;
  log = [];
}

abbrev new_system : System (List ℕ) ℕ
new_system = record { chan = new_channel; senders = λ i. Phase.fresh; receivers = λ j. Phase.fresh }

new_system-IsNew : IsNew plain_list new_system
new_system-IsNew =
    (refl, refl, refl, refl, λ i. refl, λ i. refl, λ j. refl, λ j. refl, λ i. refl, λ j. refl)

abbrev plain_channel : Channel (List ℕ) ℕ
plain_channel = record new_channel { sends = λ i. fresh_node none; recvs = λ j. fresh_node none }

-- A receiver in select 2 waits, then a sender in select 1 meets it, and both are cancelled.
abbrev waiting : System (List ℕ) ℕ
waiting = record new_system {
  chan = record new_channel {
    recvq = 1 ∷ [];
    recvs = update new_channel.recvs 1 (set_queued true (new_channel.recvs 1));
  };
  receivers = update new_system.receivers 1 Phase.emitted;
}

Reach-waiting : Reach plain_list new_system waiting
unfolding receive
Reach-waiting = next here (emit_receive 1 tt refl)

abbrev met_channel : Channel (List ℕ) ℕ
met_channel = record waiting.chan {
  recvq = [];
  recvs = update waiting.chan.recvs 1 (set_queued false (waiting.chan.recvs 1));
  done = update (update waiting.chan.done 1 1) 2 1;
  log = recv_value true 1 101 ∷ send_value true 1 ∷ [];
}

abbrev met : System (List ℕ) ℕ
met = record waiting { chan = met_channel; senders = update waiting.senders 1 Phase.emitted }

Reach-met : Reach plain_list new_system met
unfolding send serious_execution_librar.Channel.try_fulfill
Reach-met = next Reach-waiting (emit_send 1 tt refl)

abbrev left : System (List ℕ) ℕ
left = record met {
  chan = unreceive plain_list 1 (unsend plain_list 1 met.chan);
  senders = update met.senders 1 Phase.finished;
  receivers = update met.receivers 1 Phase.finished;
}

Reach-left : Reach plain_list new_system left
Reach-left = next (next Reach-met (cancel_send 1 tt)) (cancel_receive 1 tt)

left_log : left.chan.log ≡ recv_value true 1 101 ∷ send_value true 1 ∷ []
unfolding unsend unreceive
left_log = refl

callback_at_most_once_example :
    (count_if (names_send 1) met_channel.log ≤ 1) × (count_if (names_recv 1) met_channel.log ≤ 1)
callback_at_most_once_example = callback_at_most_once plain_list new_system-IsNew Reach-met 1 1

callback_exactly_once_example : count_if (names (sending 1)) left.chan.log ≡ 1
callback_exactly_once_example =
    callback_exactly_once plain_list new_system-IsNew Reach-left (sending 1) refl

-- Receiver 1 waits, and a sender in the same select arrives after another sender waits.
abbrev both_wait : System (List ℕ) ℕ
both_wait = record waiting {
  chan = record waiting.chan {
    sendq = 2 ∷ [];
    sends = update waiting.chan.sends 2 (set_queued true (waiting.chan.sends 2));
  };
  senders = update waiting.senders 2 Phase.emitted;
}

Reach-both : Reach plain_list new_system both_wait
unfolding send
Reach-both = next Reach-waiting (emit_send 2 tt refl)

queued_pending_example :
    (count 1 (1 ∷ []) ≡ 1)
    × ((both_wait.chan.recvs 1).requested_cancel ≡ false)
    × (count_if (names (receiving 1)) both_wait.chan.log ≡ 0)
queued_pending_example = queued_pending plain_list new_system-IsNew Reach-both (receiving 1) refl

select_won_once_example :
    (count_if
        (wins (λ i. (new_channel.sends i).select_done) (λ j. (new_channel.recvs j).select_done) 1)
        met_channel.log
      ≤ met_channel.done 1)
    × (met_channel.done 1 ≤ 1)
select_won_once_example = select_won_once plain_list new_system-IsNew Reach-met (λ b. omega arith) 1

send-refines_example :
    (c' : Channel (List ℕ) ℕ) × (send plain_list 5 (record plain_channel { recvq = 7 ∷ 8 ∷ [] })
      ≡ some c')
    × (view plain_list c'
        ≡ spec_send 5 105 (view plain_list (record plain_channel { recvq = 7 ∷ 8 ∷ [] })))
send-refines_example =
    send-refines plain_list 5 (record plain_channel { recvq = 7 ∷ 8 ∷ [] }) refl refl (λ j. refl)

receive-refines_example :
    (c' : Channel (List ℕ) ℕ) × (receive plain_list 5
        (record plain_channel { sendq = 7 ∷ 8 ∷ []; is_closed = true })
      ≡ some c')
    × (view plain_list c'
        ≡ spec_receive 5 plain_channel.values
            (view plain_list (record plain_channel { sendq = 7 ∷ 8 ∷ []; is_closed = true })))
receive-refines_example =
    receive-refines plain_list 5 (record plain_channel { sendq = 7 ∷ 8 ∷ []; is_closed = true })
      refl refl (λ i. refl)

-- Receivers 2 (of select 1) and 0 (of none) wait.
abbrev crossed : Channel (List ℕ) ℕ
crossed = record new_channel { recvq = 2 ∷ 0 ∷ [] }

send-same_select_example :
    (c' : Channel (List ℕ) ℕ) × (send plain_list 1 crossed ≡ some c')
    × (view plain_list c' ≡ view plain_list crossed)
    × ((c'.sends 1).queued_in ≡ false)
    × ((c'.sends 1).requested_cancel ≡ true)
send-same_select_example =
    send-same_select plain_list 1 1 2 0 (0 ∷ []) crossed refl refl refl refl refl refl refl refl
      refl
