-- ===== src/Config/Making.antt =====
-- config_parser/fncsconfig.cpp: what `createIntegrator` makes of a configuration with the registered
-- factories.
use fncs.Base.{ℕ, ◌≡◌, not, ok, ◌>>=◌, name_key}
use fncs.Time.{convert_to_framework_time}
use fncs.Settings.{Settings}
use fncs.CommManager.{CommManager, new_comm_manager}
use fncs.Config.{Json, Config, Made, extract_params}
use fncs.Config.Factories.{Interface, Algorithm}
use fncs.Config.Registering.{kind_of, IsFor}

module _ {J : Type 0} (js : Json J) where
  -- The integrator `made` of what was read from `root`
  unfoldable pub IsMade :
      (root : J) (initial_time : ℕ) → Made (CommManager Interface) Algorithm → Type 0
  IsMade root initial_time made =
      (c : Config J) × (extract_params js root ≡ ok c)
      × (interface : Interface) × IsFor c.sim_type interface
      × (made.comm_manager ≡ new_comm_manager (kind_of c.sim_type) interface)
      × (made.am_net_sim ≡ not c.sim_type)
      × (made.settings.sim_time_metric ≡ c.sim_metric)
      × (made.settings.packet_lost_period ≡ c.packet_lost_p)
      × (convert_to_framework_time c.sim_metric c.one_time_step ≡ ok made.settings.one_time_step)
      × (convert_to_framework_time c.sim_metric initial_time ≡ ok made.settings.offset)

  -- The settings of the integrator
  IsConfigured : (c : Config J) (initial_time : ℕ) → Settings → Type 0
  IsConfigured c initial_time i =
      (i.sim_time_metric ≡ c.sim_metric)
      × (i.packet_lost_period ≡ c.packet_lost_p)
      × (convert_to_framework_time c.sim_metric c.one_time_step ≡ ok i.one_time_step)
      × (convert_to_framework_time c.sim_metric initial_time ≡ ok i.offset)

  -- All of them but the offset
  abbrev IsBegun : (c : Config J) → Settings → Type 0
  IsBegun c i =
      (i.sim_time_metric ≡ c.sim_metric)
      × (i.packet_lost_period ≡ c.packet_lost_p)
      × (convert_to_framework_time c.sim_metric c.one_time_step ≡ ok i.one_time_step)
