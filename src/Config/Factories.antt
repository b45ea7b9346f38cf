-- ===== src/Config/Factories.antt =====
-- The factories: `Create` of the network interface and of the synchronisation algorithms, and the registry
-- that the macros of factorydatabase.h fill.
use fncs.Base.{
  ℤ, Bool, not, Result, ok, throws, ◌>>=◌, config_exception, [], Name, name_key, codes, ◌==◌,
  insert, map_result, assert_fails, List, if◌then◌else◌,
}
use fncs.Time.{nanoseconds, infinity}
use fncs.Speculation.{
  Speculation, Strategy, constant, increasing, infinite, infinite_with_kill_last, new_speculation,
}
use fncs.CommManager.{CommManager, grace_period, communication, create}
use fncs.Broker.{Frame}
use fncs.Zmq.Connecting.{new_client, init}
use fncs.Config.{Json, FactoryDataBase, required, json_to_time_metric}

-- The network interface that was made: the address of the broker and `iAmNetSim`
pub record Interface : Type 0 where
  pub broker_address : Name
  pub i_am_net_sim : Bool

-- The ZeroMQ library while an interface is constructed: whether it makes the three sockets and connects them
-- for this address of the broker, what a new object has in memory for `messageCallBack`, and what is found
-- on the sockets
pub record Wire : Type 0 where
  pub accepts : Name → Bool
  pub has_call_back : Bool
  pub polls : Name → List (List Frame)
  pub answers : Name → List Frame

-- `ZmqNetworkInterface::ZmqNetworkInterface(string, bool)`. An assertion of `init` fails where a socket is
-- not made or connected.
unfoldable pub construct : Wire → (broker_address : Name) → (i_am_net_sim : Bool) → Result Interface
unfolding new_client init
construct wire broker_address i_am_net_sim =
    let client =
      new_client i_am_net_sim wire.has_call_back (wire.polls broker_address)
        (wire.answers broker_address) in
    if wire.accepts broker_address
    then map_result
        (λ made. record { broker_address = broker_address; i_am_net_sim = i_am_net_sim })
        (init client).1
    else assert_fails

-- The synchronisation algorithms, with what their constructors take besides the manager
pub data Algorithm : Type 0 where
  grace_period_sync_algo : Algorithm
  active_set_conservative_tick : Algorithm
  active_set_conservative_com : Algorithm
  reactive_conservative : Algorithm
  communicator_simulator : Algorithm
  conservative_sleeping_comm : Algorithm
  conservative_sleeping_tick : (number_of_power_sims : ℤ) → Algorithm
  optimistic_tick : Speculation → Algorithm
  optimistic_comm : Speculation → Algorithm

module _ {J N C A : Type 0} where
  unfoldable pub register_sync_algo_factory :
      Name → (J → C → Result A) → FactoryDataBase J N C A → FactoryDataBase J N C A
  register_sync_algo_factory name factory db = record db {
    sync_algo_factories = insert name factory db.sync_algo_factories;
  }

  unfoldable pub register_network_interface_factory :
      Name → (J → Bool → Result N) → FactoryDataBase J N C A → FactoryDataBase J N C A
  register_network_interface_factory name factory db = record db {
    network_interface_factories = insert name factory db.network_interface_factories;
  }

  unfoldable pub register_comm_manager_factory :
      Name → (N → Bool → Result C) → FactoryDataBase J N C A → FactoryDataBase J N C A
  register_comm_manager_factory name factory db = record db {
    comm_manager_factories = insert name factory db.comm_manager_factories;
  }

module _ {J : Type 0} (js : Json J) (wire : Wire) where
  -- `ZmqNetworkInterface::Create`
  unfoldable pub create_interface : J → (sim_type : Bool) → Result Interface
  unfolding construct
  create_interface param sim_type =
      if js.is_null param
      then throws config_exception
      else (do broker_address ← js.as_string param; construct wire broker_address (not sim_type))

module _ {J : Type 0} (js : Json J) where
  -- `ConservativeSleepingTickAlgo::Create`
  unfoldable pub create_sleeping_tick : J → Result Algorithm
  create_sleeping_tick param = do
    given ← required js (codes "number_of_power_grid_sims") param
    num ← js.as_int given
    ok (conservative_sleeping_tick num)

  -- A strategy with a metric and a time, which stands under this name
  unfoldable pub create_timed : Strategy → (time_name : Name) → J → Result Speculation
  unfolding json_to_time_metric
  create_timed strategy time_name param = do
    metric ← js.member (codes "metric") param
    met ← json_to_time_metric js metric
    time ← js.member time_name param
    spec_time ← js.as_uint64 time
    new_speculation strategy met spec_time

  -- The strategy that `Create` of the two optimistic algorithms makes
  unfoldable pub create_strategy : J → Result Speculation
  unfolding create_timed
  create_strategy param = do
    given ← required js (codes "strategy") param
    strategy ← js.as_string given
    (if strategy == codes "constant"
        then create_timed constant (codes "look_ahead_time") param
        else (if strategy == codes "increasing"
            then create_timed increasing (codes "initial_look_ahead_time") param
            else (if strategy == codes "infinity"
                then new_speculation infinite nanoseconds infinity
                else (if strategy == codes "infinitywithkill"
                    then new_speculation infinite_with_kill_last nanoseconds infinity
                    else throws config_exception))))

  -- `OptimisticTickSyncAlgo::Create` and `OptimisticCommSyncAlgo::Create`; the constructor that they call is
  -- `new_optimistic`.
  unfoldable pub create_optimistic_tick : J → Result Algorithm
  unfolding create_strategy
  create_optimistic_tick param = do st ← create_strategy param; ok (optimistic_tick st)

  unfoldable pub create_optimistic_comm : J → Result Algorithm
  unfolding create_strategy
  create_optimistic_comm param = do st ← create_strategy param; ok (optimistic_comm st)

  abbrev pub Factories : Type 0
  Factories = FactoryDataBase J Interface (CommManager Interface) Algorithm

  -- An algorithm whose constructor takes the manager only
  abbrev pub plain : Algorithm → J → CommManager Interface → Result Algorithm
  plain algorithm param manager = ok algorithm

  unfoldable pub registered_algorithms : Factories → Factories
  unfolding register_sync_algo_factory create_sleeping_tick create_optimistic_tick
      create_optimistic_comm
  registered_algorithms db =
      register_sync_algo_factory (codes "ActiveSetConservativeTick")
        (plain active_set_conservative_tick)
        (register_sync_algo_factory (codes "ConservativeSleepingTickAlgo")
          (λ p m. create_sleeping_tick p)
          (register_sync_algo_factory (codes "OptimisticTickSyncAlgo")
            (λ p m. create_optimistic_tick p)
            (register_sync_algo_factory (codes "ConservativeSleepingCommAlgo")
              (plain conservative_sleeping_comm)
              (register_sync_algo_factory (codes "OptimisticCommSyncAlgo")
                (λ p m. create_optimistic_comm p)
                (register_sync_algo_factory (codes "ActiveSetConservativeCom")
                  (plain active_set_conservative_com)
                  (register_sync_algo_factory (codes "ReactiveConservative")
                    (plain reactive_conservative)
                    (register_sync_algo_factory (codes "CommunicatorSimulatorSyncalgo")
                      (plain communicator_simulator)
                      (register_sync_algo_factory (codes "GracePeriodSyncAlgo")
                        (plain grace_period_sync_algo) db))))))))

module _ {J : Type 0} (js : Json J) (wire : Wire) where
  -- `FNCS_NETWORKINTERFACE`, `FNCS_COMMMANAGER` and `FNCS_SYNCALGO`, wherever the sources use them
  unfoldable pub registered_interfaces : Factories js → Factories js
  unfolding register_network_interface_factory register_comm_manager_factory create_interface create
  registered_interfaces db =
      register_comm_manager_factory (codes "GracePeriodCommManager") (create grace_period) (
        register_comm_manager_factory (codes "CommunicationComManager") (create communication) (
          register_network_interface_factory (codes "ZmqNetworkInterface")
            (create_interface js wire) db))

  -- The registry when `main` begins
  unfoldable pub registered : Factories js
  unfolding registered_interfaces registered_algorithms
  registered = registered_algorithms js (
      registered_interfaces (record {
        sync_algo_factories = [];
        network_interface_factories = [];
        comm_manager_factories = [];
      }))
