-- ===== src/Tests/Managing.antt =====
-- Instances of the theorems on the communication managers, over a network interface that keeps what it
-- is given and hands over what waits for the simulator when it is asked for the messages under way.
use fncs.Base.{
  ◌+◌, ◌%◌, ◌≡◌, refl, arith, inl, inr, Bool, true, false, none, some, Option, List, [], ◌∷◌, ◌++◌,
  length, select, Result, ok, throws, registration_error, Name, Table, lookup, has_key, nat_key,
  name_key, ◌==◌, if◌then◌else◌, Distinct, add64, sub64, min,
}
use fncs.Base.Actions.{Returns}
use fncs.Message.{Message}
use fncs.ObjectComm.{ObjectComm}
use fncs.Network.{Network}
use fncs.CommManager.{grace_period, CommManager, found_interface, get_object_interface}
use fncs.CommManager.Timeouts.{calculate_lost}
use fncs.CommManager.Receiving.{deliver}
use fncs.CommManager.Sending.{reduce_total_send_receive, send_all, add_object_interface}
use fncs.CommManager.Accepting.{KeepsAll}
use fncs.CommManager.Counting.{
  fresh, IsDeliverable, Delivered, deliver_lem, reduce_total_send_receive_lem,
}
use fncs.CommManager.Lost.{total, kept, calculate_lost_lem}
use fncs.CommManager.Registering.{get_object_interface-add_object_interface}
use fncs.CommManager.Posting.{Takes, outgoing, emptied, copies, send_all_lem}
use fncs.Settings.{grace_time}
use fncs.Tests.Messages.{house, market, bid}
use fncs.Tests.Mailbox.{settings, clock, late, mailbox}

record Wire : Type 0 where
  sent : List Message
  waiting : List Message

abbrev wire : Network Wire
wire = record {
  send = λ message w. (record w { sent = w.sent ++ (message ∷ []) }, [], ok tt);
  broadcast = λ message w. (record w { sent = w.sent ++ (message ∷ []) }, [], ok 3);
  barier = λ w. (w, [], ok tt);
  sleep = λ w. (w, [], ok false);
  reduce_min_time = λ t w. (w, [], ok t);
  reduce_min_time_and_action = λ p w. (w, [], ok p);
  reduce_min_time_and_sleep = λ t had_message w. (w, [], ok t);
  get_next_times = λ t w. (w, [], ok (t ∷ []));
  reduce_total_send_receive =
      λ sent received w. (record w { waiting = [] }, w.waiting, ok (sub64 sent received));
  register_object = λ name w. (w, [], ok tt);
  finalize_registrations = λ w. (w, [], ok tt);
}

-- A manager of one object that has written a message, with another message and an old one waiting
abbrev old : Message
old = record bid { time_stamp = 1 }

abbrev trader : CommManager Wire
trader = record {
  kind = grace_period;
  send_count = 4;
  receive_count = 1;
  min_network_delay = 9;
  receiver_running = true;
  allow_registrations = true;
  interfaces = (market, record (mailbox []) { outbox = late ∷ [] }) ∷ [];
  sync_algo_call_back_recv = none;
  respond = false;
  packets = (1, 2) ∷ (5, 1) ∷ [];
  current_interface = record { sent = []; waiting = bid ∷ old ∷ [] };
}

trader-KeepsAll : KeepsAll trader
unfolding KeepsAll lookup fncs.Base.name_beq
trader-KeepsAll name comm e = ground (arith, e)

trader-IsDeliverable :
    IsDeliverable settings 10 trader bid × (IsDeliverable settings 10 trader old × Unit {0})
unfolding IsDeliverable has_key fncs.Base.name_beq grace_time fncs.Message.is_broadcast
trader-IsDeliverable = (inr (refl, refl), (inl refl, tt))

deliver_lem_example :
    Returns
      (λ m' _. Delivered settings 10 (bid ∷ old ∷ []) trader m')
      (deliver settings 10 (bid ∷ old ∷ []) trader)
deliver_lem_example =
    deliver_lem settings 10 10 clock (bid ∷ old ∷ []) trader refl trader-KeepsAll (omega arith)
      trader-IsDeliverable

reduce_total_send_receive_lem_example :
    Returns
      (λ m' result.
        (result ≡ sub64 4 1)
        × (m'.send_count ≡ 0)
        × (m'.receive_count ≡ length (select (fresh settings 10) (bid ∷ old ∷ []))))
      (reduce_total_send_receive settings wire 10 trader)
reduce_total_send_receive_lem_example =
    reduce_total_send_receive_lem settings 10 10 clock wire trader
      (record { sent = []; waiting = [] }) (bid ∷ old ∷ []) (sub64 4 1) refl trader-KeepsAll
      (omega arith) (omega arith) (omega arith) refl trader-IsDeliverable

calculate_lost_lem_example :
    let m' = calculate_lost settings 10 trader in
    (m'.packets ≡ kept (grace_time settings 10) trader.packets)
    × (add64 m'.receive_count (total m'.packets)
        ≡ add64 trader.receive_count (total trader.packets))
calculate_lost_lem_example = calculate_lost_lem settings 10 trader

five_once : lookup 5 trader.packets ≡ some 1
unfolding lookup
five_once = refl

house_new : has_key house trader.interfaces ≡ false
unfolding has_key fncs.Base.name_beq
house_new = refl

get_object_interface-add_object_interface_example :
    Returns
      (λ m' _.
        ((other : Name)
          → get_object_interface other m' ≡ (
            m',
            if house == other
                then ok (mailbox [])
                else found_interface (lookup other trader.interfaces),
          ))
        × ((second : ObjectComm)
            → add_object_interface settings wire 10 house second m'
              ≡ (m', throws registration_error)))
      (add_object_interface settings wire 10 house (mailbox []) trader)
get_object_interface-add_object_interface_example =
    get_object_interface-add_object_interface settings wire 10 house trader trader.current_interface
      (mailbox []) refl house_new refl

wire-Takes : Takes wire (λ w. w.sent) 3
wire-Takes = record {
  taken = λ message s. (record s { sent = s.sent ++ (message ∷ []) }, refl, refl);
  spread = λ message s. (record s { sent = s.sent ++ (message ∷ []) }, refl, refl);
}

trader-Distinct : Distinct trader.interfaces
unfolding has_key
trader-Distinct = (refl, tt)

send_all_lem_example :
    Returns
      (λ m' _.
        (m'.interfaces ≡ emptied trader.interfaces)
        × (m'.receive_count ≡ 1)
        × (m'.send_count ≡ add64 4 (copies 3 (outgoing trader.interfaces)))
        × (m'.current_interface.sent ≡ [] ++ outgoing trader.interfaces))
      (send_all settings wire 10 trader)
send_all_lem_example =
    send_all_lem settings wire 10 (λ w. w.sent) 3 wire-Takes (omega arith) (omega arith) trader refl
      (omega arith) trader-Distinct
