-- ===== src/Tests/Mailbox.antt =====
-- Instances of the theorems on the mailbox of an object.
use fncs.Base.{◌≡◌, refl, arith, true, false, Option, none, some, List, [], ◌∷◌, map, select, ok}
use fncs.Time.{nanoseconds}
use fncs.Settings.{Settings, get_cur_sim_time, grace_time}
use fncs.Message.{Message}
use fncs.ObjectComm.{ObjectComm, get_all_inbox_messages, in_window}
use fncs.ObjectComm.Reading.{others}
use fncs.ObjectComm.Draining.{drain, IsIdle, due, drain-eq-select}
use fncs.ObjectComm.ReadAll.{get_all_inbox_messages_two}
use fncs.Tests.Messages.{house, bid}

abbrev pub settings : Settings
settings = record {
  sim_time_metric = nanoseconds;
  offset = 0;
  packet_lost_period = 8;
  one_time_step = 1;
}

abbrev pub late : Message
late = record bid { time_stamp = 20 }

abbrev pub mailbox : List (Option Message) → ObjectComm
mailbox box = record {
  attached_object_name = house;
  inbox = box;
  outbox = [];
  msgs = [];
  it = 0;
  strategy = none;
  has_notifier = false;
  notifications = 0;
}

abbrev three : List Message
three = bid ∷ bid ∷ late ∷ []

pub clock : get_cur_sim_time settings 10 ≡ ok 10
unfolding get_cur_sim_time fncs.Time.convert_to_framework_time
clock = refl

due-bid : due settings 10 bid ≡ true
unfolding in_window grace_time
due-bid = refl

due-late : due settings 10 late ≡ false
unfolding in_window grace_time
due-late = refl

idle : IsIdle (mailbox (map some three)) three
idle = record { inbox = refl; msgs = refl; it = refl }

drain-eq-select_example :
    drain settings 10 5 (mailbox (map some three)) []
    ≡ ok (
        some (
          (
            record (mailbox (map some three)) {
              inbox = map some (others (due settings 10) three);
              msgs = [];
              it = 0;
            },
            select (due settings 10) three,
          )))
drain-eq-select_example =
    drain-eq-select settings 10 10 5 (mailbox (map some three)) three clock idle (omega arith)

-- The second `bid` is returned and stays, and `late` is lost.
get_all_inbox_messages_two_example :
    get_all_inbox_messages settings 10 (mailbox (map some three))
    ≡ ok (mailbox (map some (bid ∷ [])), bid ∷ bid ∷ [])
get_all_inbox_messages_two_example =
    get_all_inbox_messages_two settings 10 10 (mailbox (map some three)) clock [] [] [] bid bid late
      refl due-bid due-bid tt tt (due-late, tt)
