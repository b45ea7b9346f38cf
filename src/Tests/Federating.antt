-- ===== src/Tests/Federating.antt =====
-- The program's communication manager over a federation in which no message is under way, and the laws that
-- the synchronisation algorithms rely on. The other simulators are never more than five nanoseconds ahead of
-- the last answer, and every other time that a simulator which may sleep asks, it is told that answer again.
use fncs.Base.{
  ℕ, zero, suc, ◌+◌, ◌≤◌, ◌<◌, ◌≡◌, refl, arith, inl, inr, Bool, true, false, ok, [], ◌∷◌, leb,
  if◌then◌else◌,
}
use fncs.Base.Actions.{Returns}
use fncs.Time.{infinity}
use fncs.Network.{Network, Call}
use fncs.CommManager.{CommManager, Kind, grace_period, communication, new_comm_manager}
use fncs.CommManager.Sending
use fncs.SyncAlgorithm.{Manager, Sync, comm_manager}
use fncs.SyncAlgorithm.Answering.{View, Unanswered, Answers}
use fncs.SyncAlgorithm.Sleeping.{Sleeper}
use fncs.SyncAlgorithm.Keeping.{Rests}
use fncs.SyncAlgorithm.Remembering.{finite}
use fncs.SyncAlgorithm.Reacting.{Advances}
use fncs.SyncAlgorithm.Waking.{SleepAnswers, Moves}
use fncs.Tests.Mailbox.{settings}

-- Whether the delay has been asked for, the last answer, and how often it will be told again
pub record Federation : Type 0 where
  pub turn : Bool
  pub answer : ℕ
  pub again : ℕ

abbrev pub reach : (est answer : ℕ) → ℕ
reach est answer = if leb est (answer + 5) then est else answer + 5

abbrev reduced : ℕ → Call Federation ℕ
reduced est f =
    if f.turn
    then (record f { turn = false; answer = reach est f.answer }, [], ok (reach est f.answer))
    else (record f { turn = true }, [], ok est)

abbrev slept : (again : ℕ) → ℕ → Call Federation ℕ
slept zero est f =
    (record f { turn = false; answer = reach est f.answer; again = 1 }, [], ok (reach est f.answer))
slept (suc n) est f = (record f { turn = false; again = n }, [], ok f.answer)

abbrev pub federation : Network Federation
federation = record {
  send = λ message f. (f, [], ok tt);
  broadcast = λ message f. (f, [], ok 2);
  barier = λ f. (f, [], ok tt);
  sleep = λ f. (f, [], ok false);
  reduce_min_time = reduced;
  reduce_min_time_and_action = λ p f. (f, [], ok p);
  reduce_min_time_and_sleep = λ est sent f. slept f.again est f;
  get_next_times = λ est f. (f, [], ok (20 ∷ infinity ∷ []));
  reduce_total_send_receive = λ sent received f. (f, [], ok 0);
  register_object = λ name f. (f, [], ok tt);
  finalize_registrations = λ f. (f, [], ok tt);
}

abbrev pub manager : Manager (CommManager Federation)
manager = comm_manager settings federation 10

-- The manager of this kind has no message to send.
abbrev pub Idle : (kind : Kind) (turn : Bool) → CommManager Federation → Type 0
Idle kind turn m = (m.current_interface.turn ≡ turn) × (m.interfaces ≡ []) × (m.kind ≡ kind)

abbrev pub seen : Kind → View (CommManager Federation)
seen kind = record {
  last = λ m. m.current_interface.answer;
  Ready = Idle kind false;
  Due = Idle kind true;
}

abbrev pub patience : CommManager Federation → ℕ
patience m = m.current_interface.again

sends-Idle :
    (kind : Kind) → Unanswered (seen kind) (Idle kind false) (Idle kind false) manager.send_all
unfolding comm_manager Sending.send_all Sending.send_boxes
sends-Idle kind m idle = rw (idle.1) (refl, (idle.0, refl, idle.2))

counts-Idle :
    (kind : Kind)
    → Unanswered (seen kind) (Idle kind false) (Idle kind false) manager.reduce_total_send_receive
unfolding comm_manager Sending.reduce_total_send_receive fncs.CommManager.Receiving.call
counts-Idle kind m idle = (refl, idle)

delays-Idle :
    (kind : Kind)
    → Unanswered (seen kind) (Idle kind false) (Idle kind true) manager.reduce_network_delay
unfolding comm_manager Sending.reduce_network_delay fncs.CommManager.Receiving.call
delays-Idle kind m idle = rw (idle.0) (refl, (refl, idle.1, idle.2))

pub manager-Answers : (kind : Kind) → Answers manager (seen kind)
unfolding comm_manager Sending.waitfor_all Sending.reduce_min_time fncs.CommManager.Receiving.call
manager-Answers kind = record {
  sends = sends-Idle kind;
  waits = λ m idle. (refl, idle);
  counts = counts-Idle kind;
  delays = delays-Idle kind;
  answers = λ est m due h.
      rw (due.0) (refl, ground (arith, h), inr (ground (arith, h)), (refl, due.1, due.2));
}

pub loses-Idle :
    (t : ℕ)
    → Unanswered
        (seen communication)
        (Idle communication false)
        (Idle communication false)
        (manager.packet_lost_calculator t)
unfolding comm_manager fncs.CommManager.Receiving.packet_lost_calculator
    fncs.CommManager.Timeouts.calculate_lost
loses-Idle t m idle = rw (idle.2) (refl, (idle.0, idle.1, refl))

pub manager-Advances : Advances manager (seen grace_period)
unfolding comm_manager Sending.waitfor_all Sending.reduce_min_time fncs.CommManager.Receiving.call
manager-Advances = record {
  waits = λ m idle. (refl, idle);
  counts = counts-Idle grace_period;
  delays = delays-Idle grace_period;
  answers =
      λ est m due h. rw (due.0) (refl, ground (arith, h), ground (arith, h), (refl, due.1, due.2));
}

slept-answers :
    (again est : ℕ) (sent : Bool) (m : CommManager Federation)
    → Idle grace_period true m
    → m.current_interface.answer < est
    → m.current_interface.again ≡ again
    → Returns
        (λ m' r.
          ((seen grace_period).last m' ≡ r)
          × (r ≤ est)
          × Moves
              (seen grace_period)
              patience
              1
              m.current_interface.answer
              m.current_interface.again
              m'
          × Idle grace_period false m')
        (manager.reduce_min_time_with_sleep est sent m)
unfolding comm_manager Sending.reduce_min_time_with_sleep fncs.CommManager.Receiving.call
slept-answers zero est sent m due h e =
    rw e (refl, ground (arith, h), inl (ground (arith, h), omega arith), (refl, due.1, due.2))
slept-answers (suc n) est sent m due h e =
    rw e (refl, omega (arith, h), inr (refl, omega arith), (refl, due.1, due.2))

pub manager-SleepAnswers : SleepAnswers manager (seen grace_period) patience 1
unfolding comm_manager Sending.reduce_total_send_receive Sending.reduce_network_delay
    Sending.reduce_min_time_with_sleep fncs.CommManager.Receiving.call
    fncs.CommManager.reset_counters
manager-SleepAnswers = record {
  counts = λ m idle. (refl, omega arith, idle);
  delays = λ m idle. rw (idle.0) (refl, omega arith, (refl, idle.1, idle.2));
  resets = λ m due. (refl, omega arith, due);
  answers = λ est sent m due h. slept-answers (m.current_interface.again) est sent m due h refl;
}

abbrev pub sleeper : Sleeper (CommManager Federation)
sleeper = record {
  sleep = Sending.sleep settings federation 10;
  get_next_times = Sending.get_next_times settings federation 10;
}

pub sleeper-Rests : Rests manager sleeper (seen grace_period) 1
unfolding finite comm_manager Sending.sleep Sending.get_next_times fncs.CommManager.Receiving.call
    fncs.CommManager.reset_counters
sleeper-Rests = record {
  sleeps = λ m idle. (refl, idle);
  gathers = λ est m idle. (refl, idle, refl);
  resets = λ m due. (refl, due);
}

-- A simulator that was granted ten nanoseconds, the last answer
abbrev pub started : Kind → CommManager Federation
started kind = new_comm_manager kind (record { turn = false; answer = 10; again = 1 })

pub started-Idle : (kind : Kind) → Idle kind false (started kind)
unfolding new_comm_manager
started-Idle kind = (refl, refl, refl)

abbrev pub participant : Kind → Sync (CommManager Federation)
participant kind = record {
  interface = started kind;
  finished = false;
  granted_time = 10;
  sent_message = false;
  next_sync_time = 0;
  diff = 0;
}
