-- ===== src/Tests/Configuring.antt =====
-- Instances of the theorem on the configuration, over values in the way of JSON.
use fncs.Base.{
  lookup, insert, has_key, add_key, name_lt, name_beq, some, ◌≡◌, refl, ℕ, ℤ, pos, Bool, true,
  false, Result, ok, throws, [], ◌∷◌, nat_key, config_exception, Name, name_key, codes, ◌==◌,
  if◌then◌else◌,
}
use fncs.Time.{seconds}
use fncs.Speculation.{Speculation, increasing, new_speculation}
use fncs.Integrator.Starting.{init_integrator_optimistic}
use fncs.Broker.{context_id}
use fncs.Config.{Json, Config, extract_params, create_integrator}
use fncs.Config.Starting.{create_integrator-init}
use fncs.Config.Factories.{
  Interface, Wire, optimistic_tick, create_interface, create_optimistic_tick, registered,
}

mutual
  data Value : Type 0 where
    null : Value
    text : Name → Value
    figure : ℕ → Value
    object : Fields → Value

  data Fields : Type 0 where
    done : Fields
    field : Name → Value → Fields → Fields

abbrev find : Name → Fields → Value
find name done = null
find name (field name' value fields) = if name' == name then value else find name fields

abbrev is_null : Value → Bool
is_null null = true
is_null other = false

abbrev member : Name → Value → Result Value
member name null = ok null
member name (object fields) = ok (find name fields)
member name other = throws config_exception

abbrev as_string : Value → Result Name
as_string (text name) = ok name
as_string other = throws config_exception

abbrev as_uint64 : Value → Result ℕ
as_uint64 (figure n) = ok n
as_uint64 other = throws config_exception

abbrev as_int : Value → Result ℤ
as_int (figure n) = ok (pos n)
as_int other = throws config_exception

abbrev values : Json Value
values = record {
  is_null = is_null;
  member = member;
  as_string = as_string;
  as_uint64 = as_uint64;
  as_int = as_int;
}

abbrev params : Value
params = object (
    field (codes "strategy") (text (codes "increasing")) (
      field (codes "metric") (text (codes "milliseconds"))
        (field (codes "initial_look_ahead_time") (figure 5) done)))

-- A part of an address that ZeroMQ does not take between `tcp://` and `:5555`: `/` or `:`
abbrev is_separator : ℕ → Bool
is_separator letter = if letter == 47 then true else letter == 58

abbrev is_host : Name → Bool
is_host [] = true
is_host (letter ∷ letters) = if is_separator letter then false else is_host letters

-- A broker whose answer is the first that is found
abbrev local_broker : Wire
local_broker = record {
  accepts = is_host;
  has_call_back = false;
  polls = λ address. [];
  answers = λ address. context_id 0 ∷ [];
}

-- A power grid simulator that speculates
abbrev grid : Value
grid = object (
    field (codes "interface") (text (codes "ZmqNetworkInterface")) (
      field (codes "broker") (text (codes "localhost")) (
        field (codes "simulator_type") (text (codes "power_grid")) (
          field (codes "synchronization_algorithm") (text (codes "OptimisticTickSyncAlgo")) (
            field (codes "sync_params") params (
              field (codes "simulator_time_metric") (text (codes "seconds"))
                (field (codes "packet_lost_period") (figure 600000000) done)))))))

abbrev grid_config : Config Value
grid_config = record {
  sim_type = true;
  sim_metric = seconds;
  packet_lost_p = 600000000;
  one_time_step = 1;
  network_interface = text (codes "ZmqNetworkInterface");
  broker = text (codes "localhost");
  sync_algorithm = text (codes "OptimisticTickSyncAlgo");
  sync_algo_params = params;
}

grid_read : extract_params values grid ≡ ok grid_config
unfolding extract_params name_beq
grid_read = refl

interface_found :
    lookup
      (codes "ZmqNetworkInterface")
      (registered values local_broker).network_interface_factories
    ≡ some (create_interface values local_broker)
unfolding registered lookup insert has_key add_key name_beq name_lt
interface_found = refl

algorithm_found :
    lookup (codes "OptimisticTickSyncAlgo") (registered values local_broker).sync_algo_factories
    ≡ some (λ p m. create_optimistic_tick values p)
unfolding registered lookup insert has_key add_key name_beq name_lt
algorithm_found = refl

abbrev grid_interface : Interface
grid_interface = record { broker_address = codes "localhost"; i_am_net_sim = false }

abbrev grid_strategy : Speculation
grid_strategy = record { strategy = increasing; spec_diff = 5000000; speculation_time = 0 }

strategy_made : create_optimistic_tick values params ≡ ok (optimistic_tick grid_strategy)
unfolding create_optimistic_tick new_speculation name_beq fncs.Time.convert_to_framework_time
strategy_made = refl

interface_made : create_interface values local_broker grid_config.broker true ≡ ok grid_interface
unfolding create_interface
interface_made = refl

create_integrator-init_example :
    create_integrator values (registered values local_broker) grid 7
    ≡ init_integrator_optimistic grid_interface seconds 600000000 7 3 grid_strategy 1
create_integrator-init_example =
    create_integrator-init values local_broker grid 7 3 grid_config (codes "ZmqNetworkInterface")
      (codes "OptimisticTickSyncAlgo") (create_interface values local_broker)
      (λ p m. create_optimistic_tick values p) grid_interface (optimistic_tick grid_strategy)
      (init_integrator_optimistic grid_interface seconds 600000000 7 3 grid_strategy 1) grid_read
      refl interface_found interface_made refl algorithm_found strategy_made refl
