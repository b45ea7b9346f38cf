-- ===== src/CommManager/Timeouts.antt =====
-- commmanager/communicationcommanager.cpp: the table of the messages that the network simulator has
-- taken in and not yet sent on, by their times.
use fncs.Base.{
  ℕ, ◌+◌, ◌-◌, ◌%◌, ◌^◌, Bool, true, false, Option, none, some, List, [], ◌∷◌, length, nat_key,
  ◌==◌, Table, lookup, put, insert, erase, ltb, if◌then◌else◌, add64, sub64, ok,
}
use fncs.Base.Actions.{Action}
use fncs.Settings.{Settings, grace_time}
use fncs.CommManager.{CommManager}

-- `packets[msgTime]`, which a missing key starts at zero
abbrev pub count_at : Option ℕ → ℕ
count_at none = 0
count_at (some n) = n

-- `addMessageTimeout` over the table; the counts are `uint32_t`, and `interfaces.size()-1` is a
-- 64-bit word.
unfoldable pub add_timeout : (msg_time : ℕ) (is_broadcast : Bool) (size : ℕ) → Table ℕ ℕ → Table ℕ ℕ
add_timeout msg_time is_broadcast size packets =
    put msg_time
      ((count_at (lookup msg_time packets) + (if is_broadcast then sub64 size 1 else 1)) % 2 ^ 32)
      (insert msg_time 0 packets)

-- `removeMessageTimeout` over the table, where the time is found
unfoldable pub remove_found : (msg_time val : ℕ) → Table ℕ ℕ → Table ℕ ℕ
remove_found msg_time val packets =
    let left = if ltb 0 val then put msg_time (val - 1) packets else packets in
    if count_at (lookup msg_time left) == 0 then erase msg_time left else left

unfoldable pub remove_timeout : (msg_time : ℕ) → Option ℕ → Table ℕ ℕ → Table ℕ ℕ × Bool
unfolding remove_found
remove_timeout msg_time none packets = (packets, false)
remove_timeout msg_time (some val) packets = (remove_found msg_time val packets, true)

-- The loop of `packetLostCalculator`: the sum of the counts of the old times, and these times.
unfoldable pub find_lost : (least_time : ℕ) → Table ℕ ℕ → ℕ × List ℕ
find_lost least_time [] = (0, [])
find_lost least_time ((time, n) ∷ packets) =
    let rest = find_lost least_time packets in
    if ltb time least_time then (n + rest.0, time ∷ rest.1) else rest

unfoldable pub erase_each : List ℕ → Table ℕ ℕ → Table ℕ ℕ
erase_each [] packets = packets
erase_each (time ∷ times) packets = erase_each times (erase time packets)

module _ {S : Type 0} where
  -- `addMessageTimeout`
  unfoldable pub add_message_timeout : ℕ → Bool → CommManager S → CommManager S
  unfolding add_timeout
  add_message_timeout msg_time is_broadcast m = record m {
    packets = add_timeout msg_time is_broadcast (length m.interfaces) m.packets;
  }

  -- `removeMessageTimeout`
  unfoldable pub remove_message_timeout : ℕ → Action (CommManager S) Bool
  unfolding remove_timeout
  remove_message_timeout msg_time m =
      let r = remove_timeout msg_time (lookup msg_time m.packets) m.packets in
      (record m { packets = r.0 }, ok (r.1))

  -- `CommunicationComManager::packetLostCalculator`
  unfoldable pub calculate_lost : Settings → (current_time : ℕ) → CommManager S → CommManager S
  unfolding find_lost erase_each
  calculate_lost i current_time m =
      let lost = find_lost (grace_time i current_time) m.packets in
      record m {
        receive_count = add64 m.receive_count (lost.0);
        packets = erase_each (lost.1) m.packets;
      }
