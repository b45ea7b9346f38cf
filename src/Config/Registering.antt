-- ===== src/Config/Registering.antt =====
-- config_parser/factorydatabase.h and .cpp, and the `Create` functions: what the registered factories make.
use fncs.Base.{
  ℕ, List, ◌≡◌, refl, Bool, true, false, not, Option, none, some, Result, ok, [], ◌∷◌, Name,
  name_key, name_beq, name_lt, codes, ◌==◌, Table, lookup, insert, has_key, add_key, if◌then◌else◌,
}
use fncs.Time.{nanoseconds, infinity}
use fncs.Speculation.{constant, increasing, infinite, infinite_with_kill_last}
use fncs.CommManager.{CommManager, Kind, grace_period, communication, new_comm_manager, create}
use fncs.Broker.{Frame, context_id}
use fncs.Zmq.{i_recv, poll, process_all}
use fncs.Zmq.Connecting.{new_client, init}
use fncs.Config.{Json, required, located, manager_name}
use fncs.Config.Factories.{
  Interface, Wire, construct, Algorithm, create_interface, create_sleeping_tick, create_strategy,
  create_optimistic_tick, create_optimistic_comm, registered,
}
use fncs.Config.Reading.{
  Sound, Some, Sound->>=, Sound-if, Sound-ok, Throws, speculation-Sound, required-Sound,
  timed-Sound,
}

-- A predicate of all values of a table
abbrev pub Values : {V : Type 0} → (V → Type 0) → Table Name V → Type 0
Values P [] = Unit {0}
Values P ((n, v) ∷ t) = P v × Values P t

abbrev pub Held : {V : Type 0} → (V → Type 0) → Option V → Type 0
Held P none = Unit {0}
Held P (some v) = P v

Held-if :
    {V : Type 0} (P : V → Type 0) (c : Bool) (x y : Option V)
    → Held P x
    → Held P y
    → Held P (if c then x else y)
Held-if P true x y h k = h
Held-if P false x y h k = k

pub lookup-Held :
    {V : Type 0} (P : V → Type 0) (name : Name) (t : Table Name V)
    → Values P t
    → Held P (lookup name t)
unfolding lookup
lookup-Held P name [] h = tt
lookup-Held P name ((n, v) ∷ t) (h, hs) = Held-if P (n == name) _ _ h (lookup-Held P name t hs)

pub located-Sound : {V : Type 0} (P : V → Type 0) (f : Option V) → Held P f → Sound P (located f)
located-Sound P none h = tt
located-Sound P (some f) h = h

-- The manager that fits the type of the simulator
abbrev pub kind_of : (sim_type : Bool) → Kind
kind_of true = grace_period
kind_of false = communication

abbrev pub IsFor : (sim_type : Bool) → Interface → Type 0
IsFor sim_type interface = interface.i_am_net_sim ≡ not sim_type

-- ZeroMQ accepts the address, the first answer that is found is the number of a context, and no message
-- has arrived before it.
abbrev pub Welcomes : Wire → (address : Name) → Type 0
Welcomes wire address =
    (wire.accepts address ≡ true)
    × (wire.polls address ≡ [])
    × (n : ℕ) × (frames : List Frame) × (wire.answers address ≡ context_id n ∷ frames)

construct-IsFor :
    (wire : Wire) (address : Name) (sim_type : Bool)
    → Welcomes wire address
    → Sound (IsFor sim_type) (construct wire address (not sim_type))
unfolding construct new_client init i_recv poll process_all
construct-IsFor wire address sim_type (accepted, quiet, n, frames, first) =
    rw (accepted, quiet, first) refl

-- What holds of the registered factories
abbrev pub MakesAlgorithm : {J : Type 0} → (J → CommManager Interface → Result Algorithm) → Type 0
MakesAlgorithm f = (param : _) (m : CommManager Interface) → Sound Some (f param m)

-- The interface is made where the constructor makes one for the address that is given.
abbrev pub MakesInterface : {J : Type 0} → Json J → Wire → (J → Bool → Result Interface) → Type 0
MakesInterface js wire f =
    (param : _) (sim_type : Bool)
    → ((address : Name) → js.as_string param ≡ ok address → Welcomes wire address)
    → Sound (IsFor sim_type) (f param sim_type)

-- The manager's `Create` does not throw, as it is asked for the type that it is made for.
pub create-fits :
    (sim_type : Bool) (interface : Interface)
    → create (kind_of sim_type) interface sim_type
      ≡ ok (new_comm_manager (kind_of sim_type) interface)
unfolding create
create-fits true interface = refl
create-fits false interface = refl

pub manager_registered :
    {J : Type 0} (js : Json J) (wire : Wire) (sim_type : Bool)
    → lookup (manager_name sim_type) (registered js wire).comm_manager_factories
      ≡ some (create (kind_of sim_type))
unfolding registered insert has_key add_key lookup name_beq name_lt
manager_registered js wire true = refl
manager_registered js wire false = refl

module _ {J : Type 0} (js : Json J) (th : Throws js) where
  strategy-Sound : (param : J) → Sound Some (create_strategy js param)
  unfolding create_strategy
  strategy-Sound param =
      Sound->>= Some Some (required js (codes "strategy") param) _
        (required-Sound js th (codes "strategy") param)
        (λ j _. Sound->>= Some Some (js.as_string j) _ (th.strings j) (λ name _.
          Sound-if Some (name == codes "constant") _ _
            (λ _. timed-Sound js th constant (codes "look_ahead_time") param)
            (λ _.
              Sound-if Some (name == codes "increasing") _ _
                (λ _. timed-Sound js th increasing (codes "initial_look_ahead_time") param)
                (λ _.
                  Sound-if Some (name == codes "infinity") _ _
                    (λ _. speculation-Sound infinite nanoseconds infinity tt)
                    (λ _.
                      Sound-if Some (name == codes "infinitywithkill") _ _
                        (λ _. speculation-Sound infinite_with_kill_last nanoseconds infinity tt)
                        (λ _. tt))))))

  sleeping_tick-Sound : (param : J) → Sound Some (create_sleeping_tick js param)
  unfolding create_sleeping_tick
  sleeping_tick-Sound param =
      Sound->>= Some Some (required js (codes "number_of_power_grid_sims") param) _
        (required-Sound js th (codes "number_of_power_grid_sims") param)
        (λ j _. Sound->>= Some Some (js.as_int j) _ (th.integers j) (λ n _. tt))

  optimistic_tick-Sound : (param : J) → Sound Some (create_optimistic_tick js param)
  unfolding create_optimistic_tick
  optimistic_tick-Sound param =
      Sound->>= Some Some (create_strategy js param) _ (strategy-Sound param) (λ st _. tt)

  optimistic_comm-Sound : (param : J) → Sound Some (create_optimistic_comm js param)
  unfolding create_optimistic_comm
  optimistic_comm-Sound param =
      Sound->>= Some Some (create_strategy js param) _ (strategy-Sound param) (λ st _. tt)

  pub algorithms-Values :
      (wire : Wire) → Values MakesAlgorithm (registered js wire).sync_algo_factories
  unfolding registered insert has_key add_key name_beq name_lt
  algorithms-Values wire = (
    λ p m. tt,
    (
      λ p m. tt,
      (
        λ p m. tt,
        (
          λ p m. tt,
          (
            λ p m. sleeping_tick-Sound p,
            (
              λ p m. tt,
              (λ p m. optimistic_comm-Sound p, (λ p m. optimistic_tick-Sound p, (λ p m. tt, tt))),
            ),
          ),
        ),
      ),
    ),
  )

module _ {J : Type 0} (js : Json J) (wire : Wire) (th : Throws js) where
  interface-Sound : MakesInterface js wire (create_interface js wire)
  unfolding create_interface
  interface-Sound param sim_type welcome =
      Sound-if (IsFor sim_type) (js.is_null param) _ _ (λ _. tt)
        (λ _.
          Sound->>= (λ name. Some name × (js.as_string param ≡ ok name)) (IsFor sim_type)
            (js.as_string param) _ (Sound-ok Some (js.as_string param) (th.strings param))
            (λ name (u, e). construct-IsFor wire name sim_type (welcome name e)))

  pub interfaces-Values :
      Values (MakesInterface js wire) (registered js wire).network_interface_factories
  unfolding registered insert has_key add_key name_beq name_lt
  interfaces-Values = (interface-Sound, tt)
