-- ===== src/CommManager/Receiving.antt =====
-- commmanager/abscommmanager.cpp and communicationcommanager.cpp: what the managers do with a message
-- that the network interface hands to their callback, and their calls of that interface.
use fncs.Base.{
  ℕ, ◌≡◌, refl, true, false, Option, none, some, List, [], ◌∷◌, interface_error, not_supported, ok,
  Name, name_key, ◌==◌, keys, ltb, if◌then◌else◌,
}
use fncs.Base.Actions.{Action, pure, raise, gets, lift, modify, ◌>>=◌, ◌>>◌}
use fncs.Settings.{Settings, get_cur_sim_time, grace_time}
use fncs.Message.{Message, is_broadcast, new_message}
use fncs.Network.{Call}
use fncs.CommManager.{
  Kind, grace_period, communication, CommManager, get_object_interface, signal_new_message, accept,
}
use fncs.CommManager.Timeouts.{add_message_timeout, calculate_lost}

-- The bytes behind a pointer; there are none behind a null pointer.
abbrev pub bytes_of : Option (List ℕ) → List ℕ
bytes_of none = []
bytes_of (some bytes) = bytes

module _ {S : Type 0} (i : Settings) where
  -- `AbsCommManager::messageReceived`, where `now` is the simulation time
  unfoldable pub receive_at : (now : ℕ) → Message → Action (CommManager S) (Unit {0})
  unfolding accept
  receive_at now given =
      if ltb given.time_stamp (grace_time i now)
      then pure tt
      else (if is_broadcast given then raise interface_error else accept given)

  -- The loop of `CommunicationComManager::messageReceived` over the names of the other objects
  unfoldable pub copy_to_each : Message → List Name → Action (CommManager S) (Unit {0})
  unfolding signal_new_message
  copy_to_each given [] = pure tt
  copy_to_each given (name ∷ names) =
      let rest = copy_to_each given names in
      if name == given.from then rest else (do
        nm ←
            lift
              (new_message i given.from name given.time_stamp (bytes_of given.payload) given.size 0)
        signal_new_message given.from nm
        rest)

  -- `CommunicationComManager::messageReceived`, where `now` is the simulation time
  unfoldable pub take_in_at : (now : ℕ) → Message → Action (CommManager S) (Unit {0})
  unfolding copy_to_each
  take_in_at now given = if ltb given.time_stamp (grace_time i now) then pure tt else (do
    get_object_interface given.from
    (if is_broadcast given
        then (do
          modify (add_message_timeout given.time_stamp true)
          names ← gets (λ m. keys m.interfaces)
          copy_to_each given names)
        else (do
          signal_new_message given.from given
          modify (add_message_timeout given.time_stamp false))))

  -- The callback of the manager
  abbrev pub receive_as : Kind → (now : ℕ) → Message → Action (CommManager S) (Unit {0})
  receive_as grace_period now given = receive_at now given
  receive_as communication now given = take_in_at now given

  unfoldable pub message_received : (t : ℕ) → Message → Action (CommManager S) (Unit {0})
  unfolding receive_at take_in_at
  message_received t given m = (do now ← lift (get_cur_sim_time i t); receive_as m.kind now given) m

  unfoldable pub deliver : (t : ℕ) → List Message → Action (CommManager S) (Unit {0})
  unfolding message_received
  deliver t [] = pure tt
  deliver t (given ∷ received) = message_received t given >> deliver t received

  -- A call of the network interface
  unfoldable pub call : {A : Type 0} → (t : ℕ) → Call S A → Action (CommManager S) A
  unfolding deliver
  call t c m =
      let done = c m.current_interface in
      (deliver t (done.1) >> lift (done.2)) (record m { current_interface = done.0 })

  -- `packetLostCalculator` of the two classes
  abbrev pub lost_as : Kind → (current_time : ℕ) → Action (CommManager S) (Unit {0})
  lost_as grace_period current_time = raise not_supported
  lost_as communication current_time = modify (calculate_lost i current_time)

  unfoldable pub packet_lost_calculator : (current_time : ℕ) → Action (CommManager S) (Unit {0})
  unfolding calculate_lost
  packet_lost_calculator current_time m = lost_as m.kind current_time m

  -- A call during which no message arrives
  pub call-quiet :
      {A : Type 0} (t : ℕ) (c : Call S A) (m : CommManager S) (s : S) (a : A)
      → c m.current_interface ≡ (s, [], ok a)
      → call t c m ≡ (record m { current_interface = s }, ok a)
  unfolding call deliver
  call-quiet t c m s a e = rw e refl
