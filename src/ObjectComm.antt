-- ===== src/ObjectComm.antt =====
-- objectcomminterface.h and objectcomminterface.cpp: the mailbox of one object. A null pointer in
-- the inbox is `none`; `it` is the position of the iterator into `msgs`. The simulation time comes
-- from `Settings` and the value `t` of the registered time callback.
pub mod Reading
pub mod Draining
pub mod ReadAll
use fncs.Base.{
  ℕ, zero, suc, ◌+◌, ◌-◌, ◌≡◌, Bool, true, false, not, ◌&&◌, Option, none, some, List, [], ◌∷◌,
  ◌++◌, length, get_elem?, set, Result, ok, undefined, ◌>>=◌, Name, nat_key, ◌==◌, leb,
  if◌then◌else◌,
}
use fncs.Settings.{Settings, get_cur_sim_time, grace_time}
use fncs.Message.{Message}

-- The buffer strategies that `Integrator::getCommInterface` creates.
pub data Strategy : Type 0 where
  keep_first keep_last : Strategy

pub record ObjectComm : Type 0 where
  pub attached_object_name : Name
  pub inbox : List (Option Message)
  pub outbox : List Message
  pub msgs : List ℕ
  pub it : ℕ
  pub strategy : Option Strategy
  -- Whether `notifyMessage` is set, and how often it was called.
  pub has_notifier : Bool
  pub notifications : ℕ

unfoldable pub new_object_comm : Name → Option Strategy → ObjectComm
new_object_comm name st = record {
  attached_object_name = name;
  inbox = [];
  outbox = [];
  msgs = [];
  it = 0;
  strategy = st;
  has_notifier = false;
  notifications = 0;
}

-- `ObjectCommInterface::send`, with the callback of the synchronisation algorithm, if any
unfoldable pub send : Option (Message → Bool) → ObjectComm → Message → ObjectComm
send none o m = record o { outbox = o.outbox ++ (m ∷ []) }
send (some call_back) o m =
    if not (call_back m) then o else record o { outbox = o.outbox ++ (m ∷ []) }

-- `msg->getTime()<=currentTime && msg->getTime()>=graceTime`
unfoldable pub in_window : (current_time grace_time : ℕ) → Message → Bool
in_window current_time grace_time m = leb m.time_stamp current_time && leb grace_time m.time_stamp

-- The positions, from `i` on, of the messages that `p` selects. A null pointer must not be met.
unfoldable pub locations : (Message → Bool) → ℕ → List (Option Message) → Result (List ℕ)
locations p i [] = ok []
locations p i (none ∷ box) = undefined
locations p i (some m ∷ box) = do
  rest ← locations p (suc i) box
  ok (if p m then i ∷ rest else rest)

-- The messages at these positions, in order.
unfoldable pub selected : (Message → Bool) → List (Option Message) → Result (List Message)
selected p [] = ok []
selected p (none ∷ box) = undefined
selected p (some m ∷ box) = do rest ← selected p box; ok (if p m then m ∷ rest else rest)

-- `inbox.erase(inbox.begin()+i)`
unfoldable pub erase_at : ℕ → List (Option Message) → Result (List (Option Message))
erase_at i [] = undefined
erase_at zero (x ∷ box) = ok box
erase_at (suc i) (x ∷ box) = do rest ← erase_at i box; ok (x ∷ rest)

-- The loop of `getAllInboxMessages`, which erases at each position as it was found.
unfoldable pub erase_all : List ℕ → List (Option Message) → Result (List (Option Message))
erase_all [] box = ok box
erase_all (i ∷ locs) box = do rest ← erase_at i box; erase_all locs rest

-- The loop of `hasMoreMessages`, which counts the erased ones in `shift`.
unfoldable pub erase_shifted :
    List ℕ → (shift : ℕ) → List (Option Message) → Result (List (Option Message))
erase_shifted [] shift box = ok box
erase_shifted (i ∷ locs) shift box = do
  rest ← erase_at (i - shift) box
  erase_shifted locs (suc shift) rest

-- `ObjectCommInterface::getAllInboxMessages`
unfoldable pub get_all_inbox_messages :
    Settings → ℕ → ObjectComm → Result (ObjectComm × List Message)
get_all_inbox_messages i t o = do
  current_time ← get_cur_sim_time i t
  let p = in_window current_time (grace_time i current_time)
  locs ← locations p 0 o.inbox
  to_return ← selected p o.inbox
  inbox ← erase_all locs o.inbox
  ok (record o { inbox = inbox }, to_return)

-- The iterator is set to the first of the positions found, if there is one.
unfoldable pub found : ObjectComm → List ℕ → Result (ObjectComm × Bool)
found o [] = ok (o, false)
found o (m ∷ ms) = ok (record o { msgs = m ∷ ms; it = 0 }, true)

-- The branch of `hasMoreMessages` with no messages found yet
unfoldable pub find_messages : Settings → ℕ → ObjectComm → Result (ObjectComm × Bool)
unfolding found
find_messages i t o = do
  current_time ← get_cur_sim_time i t
  msgs ← locations (in_window current_time (grace_time i current_time)) 0 o.inbox
  found o msgs

-- The iterator after `++it`; behind the last message the inbox is tidied.
unfoldable pub move_to : ObjectComm → ℕ → Result (ObjectComm × Bool)
move_to o n =
    if n == length o.msgs
    then (do
      inbox ← erase_shifted o.msgs 0 o.inbox
      ok (record o { inbox = inbox; msgs = []; it = 0 }, false))
    else ok (record o { it = n }, true)

-- `ObjectCommInterface::hasMoreMessages`
unfoldable pub has_more_messages : Settings → ℕ → ObjectComm → Result (ObjectComm × Bool)
unfolding find_messages move_to
has_more_messages i t o = if length o.msgs == 0 then find_messages i t o else move_to o (suc o.it)

-- `this->inbox[*it]`, which is replaced by a null pointer
unfoldable pub take_message :
    ObjectComm → ℕ → Option (Option Message) → Result (ObjectComm × Option Message)
take_message o j none = undefined
take_message o j (some m) = ok (record o { inbox = set o.inbox j none }, m)

unfoldable pub take_at : ObjectComm → Option ℕ → Result (ObjectComm × Option Message)
unfolding take_message
take_at o none = undefined
take_at o (some j) = take_message o j (get_elem? o.inbox j)

-- `ObjectCommInterface::getNextInboxMessage`
unfoldable pub get_next_inbox_message : ObjectComm → Result (ObjectComm × Option Message)
unfolding take_at
get_next_inbox_message o = take_at o (get_elem? o.msgs o.it)

-- `BufferStrategy::getNumberOfMessage` ends without a `return`.
unfoldable pub get_number_of_message : ObjectComm → Result ℕ
get_number_of_message o = undefined

-- `getMessage(0)->getTime()`
unfoldable pub first_time : List (Option Message) → Result ℕ
first_time [] = undefined
first_time (none ∷ box) = undefined
first_time (some m ∷ box) = ok m.time_stamp

-- `BufferStrategy::clearInbox`, `getMessage` and `removeMessage`, for a strategy of the simulator's own. The
-- index is not negative.
unfoldable pub clear_inbox : ObjectComm → ObjectComm
clear_inbox o = record o { inbox = [] }

unfoldable pub get_message : ObjectComm → ℕ → Result (Option Message)
get_message o index = elim (get_elem? o.inbox index) [ none ↦ undefined | some m ↦ ok m ]

unfoldable pub remove_message : ObjectComm → ℕ → Result ObjectComm
unfolding erase_at
remove_message o index = do box ← erase_at index o.inbox; ok (record o { inbox = box })

-- `KeepLastStrategy::doBufferMessage` and `KeepFirstStrategy::doBufferMessage`
unfoldable pub do_buffer_message : Strategy → ObjectComm → Message → Result Bool
unfolding get_number_of_message first_time
do_buffer_message keep_last o given = do
  n ← get_number_of_message o
  if n == 0 then ok true else (do first ← first_time o.inbox; ok (leb first given.time_stamp))
do_buffer_message keep_first o given = do n ← get_number_of_message o; ok (n == 0)

unfoldable pub push_message : ObjectComm → Message → ObjectComm
push_message o given = record o {
  inbox = o.inbox ++ (some given ∷ []);
  notifications = if o.has_notifier then suc o.notifications else o.notifications;
}

-- `ObjectCommInterface::newMessage`
unfoldable pub new_message : ObjectComm → Message → Result ObjectComm
unfolding do_buffer_message push_message
new_message o given = elim o.strategy [
  | none ↦ ok (push_message o given)
  | some st ↦ (do
    keep ← do_buffer_message st o given
    ok (if keep then push_message o given else o))
]

-- `ObjectCommInterface::clear`
unfoldable pub clear : ObjectComm → ObjectComm
clear o = record o { outbox = [] }

-- `ObjectCommInterface::setMessageNotifier`
unfoldable pub set_message_notifier : Bool → ObjectComm → ObjectComm
set_message_notifier is_set o = record o { has_notifier = is_set }
