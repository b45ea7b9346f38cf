-- ===== src/CommManager.antt =====
-- commmanager/abscommmanager.h and .cpp, communicationcommanager.h: the state of a communication
-- manager, and what it does with the messages that arrive. A simulator calls it with its settings
-- `i` and the value `t` of its time callback. An array of answers or of arguments is a pair.
pub mod Timeouts
pub mod Receiving
pub mod Sending
pub mod Registering
pub mod Accepting
pub mod Counting
pub mod Lost
pub mod Posting
use fncs.Base.{
  ℕ, ◌+◌, ◌-◌, ◌%◌, ◌^◌, ◌≡◌, Bool, true, false, not, Option, none, some, List, [], ◌∷◌, length,
  Exception, interface_error, registration_error, not_supported, config_exception, Result, ok,
  throws, Name, Key, nat_key, name_key, ◌==◌, Table, lookup, has_key, put, insert, erase, ltb,
  if◌then◌else◌, add64, sub64,
}
use fncs.Base.Actions.{Action, pure, raise, gets, lift, modify, ◌>>=◌, ◌>>◌}
use fncs.Time.{infinity}
use fncs.Settings.{Settings, get_cur_sim_time, grace_time}
use fncs.Message.{Message, is_broadcast}
use fncs.ObjectComm.{ObjectComm, new_message as box_message}
use fncs.Network.{Network, Call}

-- `GracePeriodCommManager` or `CommunicationComManager`
pub data Kind : Type 0 where
  grace_period communication : Kind

pub record CommManager (S : Type 0) : Type 0 where
  pub kind : Kind
  pub send_count : ℕ
  pub receive_count : ℕ
  pub min_network_delay : ℕ
  pub receiver_running : Bool
  pub allow_registrations : Bool
  pub interfaces : Table Name ObjectComm
  -- `syncAlgoCallBackRecv`: from the message and the algorithm's `respond`, the new `respond` and
  -- what the callback returns.
  pub sync_algo_call_back_recv : Option (Message → Bool → Bool × Bool)
  pub respond : Bool
  -- Of a `CommunicationComManager`: how many messages of a time are still under way.
  pub packets : Table ℕ ℕ
  pub current_interface : S

abbrev pub found_interface : Option ObjectComm → Result ObjectComm
found_interface none = throws registration_error
found_interface (some comm) = ok comm

module _ {S : Type 0} where
  -- `AbsCommManager::AbsCommManager(AbsNetworkInterface *current)`
  unfoldable pub new_comm_manager : Kind → S → CommManager S
  new_comm_manager k current = record {
    kind = k;
    send_count = 0;
    receive_count = 0;
    min_network_delay = infinity;
    receiver_running = false;
    allow_registrations = true;
    interfaces = [];
    sync_algo_call_back_recv = none;
    respond = false;
    packets = [];
    current_interface = current;
  }

  -- `Create` of the two classes, which check the type of the simulator.
  unfoldable pub create : Kind → S → (sim_type : Bool) → Result (CommManager S)
  unfolding new_comm_manager
  create grace_period given sim_type =
      if not sim_type then throws config_exception else ok (new_comm_manager grace_period given)
  create communication given sim_type =
      if sim_type then throws config_exception else ok (new_comm_manager communication given)

  -- `resetCounters`
  unfoldable pub reset_counters : CommManager S → CommManager S
  reset_counters m = record m { send_count = 0; receive_count = 0 }

  -- `setSyncAlgoCallBacks`, the receiving one
  unfoldable pub set_sync_algo_call_back :
      Option (Message → Bool → Bool × Bool) → CommManager S → CommManager S
  set_sync_algo_call_back call_back m = record m { sync_algo_call_back_recv = call_back }

  -- `startReceiver` and `stopReceiver`
  unfoldable pub set_receiver : Bool → CommManager S → CommManager S
  set_receiver running m = record m { receiver_running = running }

  -- `adjustNetworkDelay`
  unfoldable pub adjust_network_delay : ℕ → CommManager S → CommManager S
  adjust_network_delay d m = record m {
    min_network_delay = if ltb d m.min_network_delay then d else m.min_network_delay;
  }

  -- `getObjectInterface`
  unfoldable pub get_object_interface : Name → Action (CommManager S) ObjectComm
  get_object_interface object_name m = (m, found_interface (lookup object_name m.interfaces))

  -- What became of the object that a pointer from the table leads to
  abbrev pub write_interface : Name → ObjectComm → CommManager S → CommManager S
  write_interface name comm m = record m { interfaces = put name comm m.interfaces }

  -- `signalNewMessage`, on the object with this name
  unfoldable pub signal_new_message : Name → Message → Action (CommManager S) (Unit {0})
  unfolding get_object_interface
  signal_new_message name given = do
    comm ← get_object_interface name
    comm' ← lift (box_message comm given)
    modify (write_interface name comm')

  abbrev pub call_back :
      Option (Message → Bool → Bool × Bool) → Message → Action (CommManager S) Bool
  call_back none given m = (m, ok true)
  call_back (some f) given m =
      (record m { respond = (f given m.respond).0 }, ok ((f given m.respond).1))

  abbrev pub after_call_back : Message → Bool → Action (CommManager S) (Unit {0})
  after_call_back given true = modify (adjust_network_delay given.network_delivery_time)
  after_call_back given false = pure tt

  -- The rest of `AbsCommManager::messageReceived`, once the message is known to be acceptable
  unfoldable pub accept : Message → Action (CommManager S) (Unit {0})
  unfolding signal_new_message
  accept given = do
    gets (λ m. m.interfaces) >>= λ t. lift (found_interface (lookup given.to t))
    modify (λ m. record m { receive_count = add64 m.receive_count 1 })
    signal_new_message given.to given
    go_on ← gets (λ m. m.sync_algo_call_back_recv) >>= λ f. call_back f given
    after_call_back given go_on
