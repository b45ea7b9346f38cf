-- ===== src/Config/Starting.antt =====
-- config_parser/fncsconfig.cpp and integrator.cpp: a configuration, compared with the functions that make
-- an integrator without one.
use fncs.Base.{
  ℕ, ◌≡◌, refl, sym, ◌∙◌, ap, Bool, true, false, not, Option, none, some, Result, ok, ◌>>=◌, Name,
  name_key, lookup,
}
use fncs.Time.{TimeMetric, seconds, milliseconds, nanoseconds, unknown, convert_to_framework_time}
use fncs.CommManager.{CommManager, new_comm_manager}
use fncs.Integrator.{new_settings}
use fncs.Integrator.Starting.{
  Instance, new_instance, init_integrator_grace_period, init_integrator_conservative_sleeping_tick,
  init_integrator_conservative_sleeping_comm, init_integrator_communication_sim,
  init_integrator_optimistic, init_integrator_optimistic_comm,
}
use fncs.Config.{Json, Config, extract_params, create_integrator}
use fncs.Config.Factories.{
  Interface, Wire, Algorithm, grace_period_sync_algo, communicator_simulator,
  conservative_sleeping_comm, conservative_sleeping_tick, optimistic_tick, optimistic_comm,
  registered,
}
use fncs.Config.Registering.{kind_of, manager_registered, create-fits}

-- What the function for an algorithm makes, where the algorithm fits the type of the simulator and there
-- is such a function
abbrev pub made_by :
    (spec_difference : ℕ) (sim_type : Bool)
    → Algorithm
    → Interface
    → TimeMetric
    → (packet_lost_period initial_time onetimestep : ℕ) → Option (Result Instance)
made_by d true grace_period_sync_algo i m p t s = some (init_integrator_grace_period i m p t s)
made_by d true (conservative_sleeping_tick n) i m p t s =
    some (init_integrator_conservative_sleeping_tick i m p t n s)
made_by d true (optimistic_tick st) i m p t s = some (init_integrator_optimistic i m p t d st s)
made_by d true other i m p t s = none
made_by d false conservative_sleeping_comm i m p t s =
    some (init_integrator_conservative_sleeping_comm i m p t s)
made_by d false communicator_simulator i m p t s =
    some (init_integrator_communication_sim i m p t s)
made_by d false (optimistic_comm st) i m p t s =
    some (init_integrator_optimistic_comm i m p t d st s)
made_by d false other i m p t s = none

some-injective : {A : Type 0} {a b : A} → some a ≡ some b → a ≡ b
some-injective {A} {a} e = ap (λ o. elim o [ none ↦ a | some x ↦ x ]) e

-- Converting the time that is not used changes nothing, as the time step is converted after it.
unused :
    (m : TimeMetric) (d p t s : ℕ) (algo : Algorithm) (sim_type : Bool) (i : Interface)
    → (convert_to_framework_time m d
        >>= (λ x. new_instance (kind_of sim_type) algo (not sim_type) i m p t s))
      ≡ new_instance (kind_of sim_type) algo (not sim_type) i m p t s
unfolding convert_to_framework_time new_instance new_settings
unused seconds d p t s algo sim_type i = refl
unused milliseconds d p t s algo sim_type i = refl
unused nanoseconds d p t s algo sim_type i = refl
unused unknown d p t s algo sim_type i = refl

made_by-eq :
    (d p t s : ℕ) (sim_type : Bool) (algo : Algorithm) (i : Interface) (m : TimeMetric)
    (made : Result Instance)
    → made_by d sim_type algo i m p t s ≡ some made
    → new_instance (kind_of sim_type) algo (not sim_type) i m p t s ≡ made
unfolding init_integrator_grace_period init_integrator_conservative_sleeping_tick
    init_integrator_conservative_sleeping_comm init_integrator_communication_sim
    init_integrator_optimistic init_integrator_optimistic_comm
made_by-eq d p t s true grace_period_sync_algo i m made e = some-injective e
made_by-eq d p t s true (conservative_sleeping_tick n) i m made e = some-injective e
made_by-eq d p t s true (optimistic_tick st) i m made e =
    sym (unused m d p t s (optimistic_tick st) true i) ∙ some-injective e
made_by-eq d p t s true other i m made e = cc
made_by-eq d p t s false conservative_sleeping_comm i m made e = some-injective e
made_by-eq d p t s false communicator_simulator i m made e = some-injective e
made_by-eq d p t s false (optimistic_comm st) i m made e =
    sym (unused m d p t s (optimistic_comm st) false i) ∙ some-injective e
made_by-eq d p t s false other i m made e = cc

module _ {J : Type 0} (js : Json J) (wire : Wire) where
  -- Let a configuration be read, and let the registry have factories under the names that it gives for the
  -- network interface and the algorithm, and let these make an interface and an algorithm. If the
  -- algorithm fits the type of the simulator and `Integrator` has a function for it, then createIntegrator
  -- gives what this function gives for that interface and the metric, the times and the
  -- step of the configuration.
  pub create_integrator-init :
      (root : J) (initial_time spec_difference : ℕ) (c : Config J)
      (interface_name algorithm_name : Name) (network_factory : J → Bool → Result Interface)
      (sync_factory : J → CommManager Interface → Result Algorithm) (interface : Interface)
      (algo : Algorithm) (made : Result Instance)
      → extract_params js root ≡ ok c
      → js.as_string c.network_interface ≡ ok interface_name
      → lookup interface_name (registered js wire).network_interface_factories
        ≡ some network_factory
      → network_factory c.broker c.sim_type ≡ ok interface
      → js.as_string c.sync_algorithm ≡ ok algorithm_name
      → lookup algorithm_name (registered js wire).sync_algo_factories ≡ some sync_factory
      → sync_factory c.sync_algo_params (new_comm_manager (kind_of c.sim_type) interface) ≡ ok algo
      → made_by spec_difference c.sim_type algo interface c.sim_metric c.packet_lost_p initial_time
          c.one_time_step
        ≡ some made
      → create_integrator js (registered js wire) root initial_time ≡ made
  unfolding create_integrator new_instance
  create_integrator-init root initial_time spec_difference c interface_name algorithm_name
        network_factory sync_factory interface algo made e1 e2 e3 e4 e5 e6 e7 e8 =
      rw e1 (
        rw e2 (
          rw e3 (
            rw e4 (
              rw (manager_registered js wire c.sim_type) (
                rw (create-fits c.sim_type interface) (
                  rw e5 (
                    rw e6 (
                      rw e7 (
                        made_by-eq spec_difference c.packet_lost_p initial_time c.one_time_step
                          c.sim_type algo interface c.sim_metric made e8)))))))))
