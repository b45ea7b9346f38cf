-- ===== src/CommManager/Sending.antt =====
-- commmanager/abscommmanager.cpp, graceperiodcommmanager.cpp and communicationcommanager.cpp: the calls
-- of the integrator and of the synchronisation algorithms that go through to the network interface.
use fncs.Base.{
  ℕ, ◌+◌, ◌-◌, ◌%◌, ◌^◌, Bool, true, false, Option, none, some, List, [], ◌∷◌, Exception,
  interface_error, not_supported, registration_error, throws, Name, name_key, keys, lookup, has_key,
  insert, ltb, if◌then◌else◌, add64, sub64,
}
use fncs.Base.Actions.{Action, pure, raise, gets, lift, modify, rescue, ◌>>=◌, ◌>>◌}
use fncs.Settings.{Settings, get_cur_sim_time}
use fncs.Message.{Message, is_broadcast, set_delivery_time}
use fncs.ObjectComm.{ObjectComm, clear}
use fncs.Network.{Network}
use fncs.CommManager.{Kind, grace_period, communication, CommManager, write_interface}
use fncs.CommManager.Timeouts.{remove_message_timeout}
use fncs.CommManager.Receiving.{call}

-- The 64-bit word that an `int` made of `n` is when it is added to a counter
unfoldable pub int_word : ℕ → ℕ
int_word n = let low = n % 2 ^ 32 in if ltb low (2 ^ 31) then low else low + (2 ^ 64 - 2 ^ 32)

-- What `catch(InterfaceErrorException &e)` recognises
abbrev pub is_interface_error : Exception → Bool
is_interface_error interface_error = true
is_interface_error other = false

abbrev pub box_of : Option ObjectComm → List Message
box_of none = []
box_of (some comm) = comm.outbox

module _ {S : Type 0} where
  abbrev pub clear_at : Name → Option ObjectComm → CommManager S → CommManager S
  clear_at name none m = m
  clear_at name (some comm) m = write_interface name (clear comm) m

module _ {S : Type 0} (i : Settings) (net : Network S) (t : ℕ) where
  -- One message in `GracePeriodCommManager::sendAll`
  unfoldable pub post : Message → Action (CommManager S) (Unit {0})
  unfolding int_word
  post message =
      if is_broadcast message
      then (do
        n ← call i t (net.broadcast message)
        modify (λ m. record m { send_count = add64 m.send_count (int_word (sub64 n 1)) }))
      else (do
        modify (λ m. record m { send_count = add64 m.send_count 1 })
        call i t (net.send message))

  -- One message in `CommunicationComManager::sendAll`
  unfoldable pub pass_on : Message → Action (CommManager S) (Unit {0})
  pass_on message = do
    now ← lift (get_cur_sim_time i t)
    message' ← lift (set_delivery_time i message now)
    (if is_broadcast message' then raise not_supported else (do
      found ← remove_message_timeout message'.time_stamp
      (if found then call i t (net.send message') else pure tt)))

  abbrev pub send_as : Kind → Message → Action (CommManager S) (Unit {0})
  send_as grace_period message = post message
  send_as communication message = pass_on message

  -- The inner loop of `sendAll`
  unfoldable pub send_each : List Message → Action (CommManager S) (Unit {0})
  unfolding post pass_on
  send_each [] = pure tt
  send_each (message ∷ messages) =
      (λ m. rescue is_interface_error (send_as m.kind message m)) >> send_each messages

  -- The outer loop of `sendAll`, over the names of the objects
  unfoldable pub send_boxes : List Name → Action (CommManager S) (Unit {0})
  unfolding send_each clear
  send_boxes [] = pure tt
  send_boxes (name ∷ names) = do
    outmessges ← gets (λ m. box_of (lookup name m.interfaces))
    send_each outmessges
    modify (λ m. clear_at name (lookup name m.interfaces) m)
    send_boxes names

  -- `sendAll`
  unfoldable pub send_all : Action (CommManager S) (Unit {0})
  unfolding send_boxes
  send_all m = send_boxes (keys m.interfaces) m

  -- `sleep` and `waitforAll`
  unfoldable pub sleep : Action (CommManager S) Bool
  sleep = call i t net.sleep

  unfoldable pub waitfor_all : Action (CommManager S) (Unit {0})
  waitfor_all = call i t net.barier

  -- `reduceNetworkDelay`
  unfoldable pub reduce_network_delay : Action (CommManager S) ℕ
  reduce_network_delay m = call i t (net.reduce_min_time m.min_network_delay) m

  -- `reduceTotalSendReceive`
  unfoldable pub reduce_total_send_receive : Action (CommManager S) ℕ
  reduce_total_send_receive m =
      (do
        result ← call i t (net.reduce_total_send_receive m.send_count m.receive_count)
        modify (λ m'. record m' {
          send_count = sub64 m'.send_count m.send_count;
          receive_count = sub64 m'.receive_count m.receive_count;
        })
        pure result)
        m

  -- `reduceMinTime`, `reduceMinTimeWithSleep`, `aggreateReduceMin` and `getNextTimes`
  unfoldable pub reduce_min_time : ℕ → Action (CommManager S) ℕ
  reduce_min_time current_time = call i t (net.reduce_min_time current_time)

  unfoldable pub reduce_min_time_with_sleep : ℕ → Bool → Action (CommManager S) ℕ
  reduce_min_time_with_sleep current_time sent_message =
      call i t (net.reduce_min_time_and_sleep current_time sent_message)

  unfoldable pub aggreate_reduce_min : ℕ × ℕ → Action (CommManager S) (ℕ × ℕ)
  aggreate_reduce_min time_action = call i t (net.reduce_min_time_and_action time_action)

  unfoldable pub get_next_times : ℕ → Action (CommManager S) (List ℕ)
  get_next_times next_time = call i t (net.get_next_times next_time)

  -- `addObjectInterface`
  unfoldable pub add_object_interface : Name → ObjectComm → Action (CommManager S) (Unit {0})
  add_object_interface object_name given m =
      if m.allow_registrations
      then (if has_key object_name m.interfaces
          then (m, throws registration_error)
          else call i t (net.register_object object_name)
              (record m { interfaces = insert object_name given m.interfaces }))
      else (m, throws registration_error)

  -- `finalizeRegistrations`
  unfoldable pub finalize_registrations : Action (CommManager S) (Unit {0})
  finalize_registrations m =
      call i t net.finalize_registrations (record m { allow_registrations = false })
