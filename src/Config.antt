-- ===== src/Config.antt =====
-- config_parser/fncsconfig.h and .cpp, factorydatabase.h and .cpp: reading the configuration of a simulator,
-- and the registry of the factories by which its objects are made. The values of the jsoncpp library and
-- its calls are a parameter; the callbacks that make objects are functions.
pub mod Factories
pub mod Reading
pub mod Registering
pub mod Making
pub mod Starting
use fncs.Base.{
  ℕ, ℤ, Bool, true, false, not, Option, none, some, Result, ok, throws, undefined, ◌>>=◌,
  config_exception, Name, name_key, codes, ◌==◌, Table, lookup, insert, if◌then◌else◌,
}
use fncs.Time.{TimeMetric, seconds, milliseconds, nanoseconds}
use fncs.Settings.{Settings, set_offset}
use fncs.Integrator.{new_settings}

-- What the code asks of a `Json::Value`: `isNull`, `operator[]` with a member's name, `asString`,
-- `asUInt64` and `asInt`. The last four may throw.
pub record Json (J : Type 0) : Type 0 where
  pub is_null : J → Bool
  pub member : Name → J → Result J
  pub as_string : J → Result Name
  pub as_uint64 : J → Result ℕ
  pub as_int : J → Result ℤ

-- The members of `FncsConfig` and of its `ConfigNodes`, but for the root. `sim_type` is true for a
-- tick-based simulator.
pub record Config (J : Type 0) : Type 0 where
  pub sim_type : Bool
  pub sim_metric : TimeMetric
  pub packet_lost_p : ℕ
  pub one_time_step : ℕ
  pub network_interface : J
  pub broker : J
  pub sync_algorithm : J
  pub sync_algo_params : J

-- The maps of `FactoryDataBase`: the makers of network interfaces `N`, communication managers `C` and
-- synchronisation algorithms `A`
pub record FactoryDataBase (J N C A : Type 0) : Type 0 where
  pub sync_algo_factories : Table Name (J → C → Result A)
  pub network_interface_factories : Table Name (J → Bool → Result N)
  pub comm_manager_factories : Table Name (N → Bool → Result C)

-- The integrator that is made, with its two objects
pub record Made (C A : Type 0) : Type 0 where
  pub comm_manager : C
  pub sync_algo : A
  pub settings : Settings
  pub am_net_sim : Bool

-- A factory that the code asks for before it calls it, and one that it calls whatever `find` gave
abbrev pub located : {F : Type 0} → Option F → Result F
located none = throws config_exception
located (some f) = ok f

abbrev pub called : {F : Type 0} → Option F → Result F
called none = undefined
called (some f) = ok f

abbrev pub manager_name : (sim_type : Bool) → Name
manager_name true = codes "GracePeriodCommManager"
manager_name false = codes "CommunicationComManager"

module _ {J : Type 0} (js : Json J) where
  -- `jsonToTimeMetric`
  unfoldable pub json_to_time_metric : J → Result TimeMetric
  json_to_time_metric given = if js.is_null given then throws config_exception else (do
    time_metric ← js.as_string given
    (if time_metric == codes "seconds"
        then ok seconds
        else (if time_metric == codes "milliseconds"
            then ok milliseconds
            else (if time_metric == codes "nanoseconds"
                then ok nanoseconds
                else throws config_exception))))

  -- A member that must not be null
  abbrev pub required : Name → J → Result J
  required name root = do
    given ← js.member name root
    (if js.is_null given then throws config_exception else ok given)

  -- The type of the simulator
  unfoldable pub read_sim_type : J → Result Bool
  read_sim_type root = do
    given ← required (codes "simulator_type") root
    sim_type ← js.as_string given
    (if sim_type == codes "power_grid"
        then ok true
        else (if sim_type == codes "communication_network"
            then ok false
            else throws config_exception))

  -- The step, which is 1 where it is not given
  unfoldable pub read_one_time_step : J → Result ℕ
  read_one_time_step root = do
    given ← js.member (codes "one_time_step") root
    (if js.is_null given then ok 1 else js.as_uint64 given)

  -- `extractParams`
  unfoldable pub extract_params : J → Result (Config J)
  unfolding read_sim_type json_to_time_metric read_one_time_step
  extract_params root = do
    network_interface ← js.member (codes "interface") root
    broker ← js.member (codes "broker") root
    sim_type ← read_sim_type root
    sync_algorithm ← js.member (codes "synchronization_algorithm") root
    sync_algo_params ← js.member (codes "sync_params") root
    metric ← required (codes "simulator_time_metric") root
    sim_metric ← json_to_time_metric metric
    one_time_step ← read_one_time_step root
    lost ← required (codes "packet_lost_period") root
    packet_lost_p ← js.as_uint64 lost
    ok (record {
      sim_type = sim_type;
      sim_metric = sim_metric;
      packet_lost_p = packet_lost_p;
      one_time_step = one_time_step;
      network_interface = network_interface;
      broker = broker;
      sync_algorithm = sync_algorithm;
      sync_algo_params = sync_algo_params;
    })

  module _ {N C A : Type 0} (db : FactoryDataBase J N C A) where
    -- `createIntegrator`. The integrator's offset is set after its construction.
    unfoldable pub create_integrator : (root : J) (initial_time : ℕ) → Result (Made C A)
    unfolding extract_params
    create_integrator root initial_time = do
      c ← extract_params root
      interface_name ← js.as_string c.network_interface
      network_factory ← located (lookup interface_name db.network_interface_factories)
      interface ← network_factory c.broker c.sim_type
      comm_manager_factory ← called (lookup (manager_name c.sim_type) db.comm_manager_factories)
      comm_manager ← comm_manager_factory interface c.sim_type
      algorithm_name ← js.as_string c.sync_algorithm
      sync_factory ← located (lookup algorithm_name db.sync_algo_factories)
      algo ← sync_factory c.sync_algo_params comm_manager
      instance ← new_settings c.sim_metric c.packet_lost_p c.one_time_step 0
      settings ← set_offset instance initial_time
      ok (record {
        comm_manager = comm_manager;
        sync_algo = algo;
        settings = settings;
        am_net_sim = not c.sim_type;
      })
