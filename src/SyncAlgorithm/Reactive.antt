-- ===== src/SyncAlgorithm/Reactive.antt =====
-- syncalgorithms/reactiveconservative.cpp: the algorithm of a simulator that acts only when a message
-- has arrived. Its member `respond`, which its callbacks set, is the flag of the manager. A call that
-- needs more rounds than its fuel gives `none`.
use fncs.Base.{
  ℕ, zero, suc, Bool, true, false, ◌||◌, ◌&&◌, Option, none, some, ok, nat_key, ◌==◌, leb, ltb,
  if◌then◌else◌, add64,
}
use fncs.Base.Actions.{Action, pure, modify, gets, lift, ◌>>=◌, ◌>>◌}
use fncs.Time.{infinity, round_time}
use fncs.Settings.{Settings}
use fncs.Message.{Message}
use fncs.CommManager.{CommManager}
use fncs.SyncAlgorithm.{Manager, Sync, ask, grant, Round, again, returns}

-- `receivedMessage`: the new flag, and what the callback returns
unfoldable pub received_message : Message → Bool → Bool × Bool
received_message given respond = (true, true)

-- `sentMessage`
unfoldable pub sent_message : {S : Type 0} → Message → Action (Sync (CommManager S)) Bool
sent_message given s = (record s { interface = record s.interface { respond = false } }, ok true)

module _ {M : Type 0} (i : Settings) (mg : Manager M) where
  -- The end of a round, after the answer `min_next_time`
  unfoldable pub judge :
      (current_time est min_next_time : ℕ) (need busywait : Bool) → Action (Sync M) Round
  judge current_time est min_next_time need busywait =
      if min_next_time == est || est == infinity
      then (modify (grant min_next_time) >> pure (returns min_next_time))
      else (if ltb min_next_time est
          then (do
            current ← lift (round_time i.sim_time_metric min_next_time)
            pure (again current need true))
          else (if busywait
              then pure (again current_time need true)
              else (modify (grant est) >> pure (returns est))))

  -- One round of the loop
  unfoldable pub reactive_round : (current_time : ℕ) (need busywait : Bool) → Action (Sync M) Round
  unfolding judge
  reactive_round current_time need busywait = do
    (if busywait then ask mg.waitfor_all else pure tt)
    diff ← ask mg.reduce_total_send_receive
    respond ← gets (λ s. mg.respond s.interface)
    ask mg.reduce_network_delay
    let est = if respond then add64 current_time i.one_time_step else infinity
    min_next_time ← ask (mg.reduce_min_time est)
    judge current_time est min_next_time (if respond && ltb 0 diff then true else need) busywait

  unfoldable pub reactive_loop :
      (fuel current_time : ℕ) (need busywait : Bool) → Action (Sync M) (Option ℕ)
  unfolding reactive_round
  reactive_loop zero current_time need busywait = pure none
  reactive_loop (suc fuel) current_time need busywait = do
    r ← reactive_round current_time need busywait
    elim r [
      | returns t ↦ pure (some t)
      | again current need' busywait' ↦ reactive_loop fuel current need' busywait'
    ]

  -- What the call returns of the granted time: no more than was asked for.
  abbrev pub at_most : (next_time : ℕ) → Option ℕ → Option ℕ
  at_most next_time none = none
  at_most next_time (some est) = some (if ltb next_time est then next_time else est)

  -- `ReactiveConservative::GetNextTime`
  unfoldable pub get_next_time : (fuel current_time next_time : ℕ) → Action (Sync M) (Option ℕ)
  unfolding reactive_loop
  get_next_time fuel current_time next_time s =
      if leb next_time s.granted_time
      then (s, ok (some next_time))
      else (do est ← reactive_loop fuel current_time false false; pure (at_most next_time est)) s
