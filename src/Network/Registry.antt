-- ===== src/Network/Registry.antt =====
-- absnetworkinterface.cpp: the names of the objects that are registered at a network interface.
use fncs.Base.{
  Bool, true, false, not, List, [], ◌∷◌, ◌++◌, network_exception, Name, name_key, member,
  if◌then◌else◌, ok, throws,
}
use fncs.Base.Actions.{Action}

pub record Registry : Type 0 where
  pub my_objects : List Name
  pub registrations_are_finalized : Bool
  pub can_fork : Bool
  pub kill_on_term : Bool

-- `AbsNetworkInterface::AbsNetworkInterface(bool forkCapable)`
unfoldable pub new_registry : Bool → Registry
new_registry fork_capable = record {
  my_objects = [];
  registrations_are_finalized = false;
  can_fork = fork_capable;
  kill_on_term = true;
}

-- `setKillOnTerm`
unfoldable pub set_kill_on_term : Bool → Registry → Registry
set_kill_on_term state r = record r { kill_on_term = state }

-- `registerObject`
unfoldable pub register_object : Name → Action Registry (Unit {0})
register_object name r =
    if r.registrations_are_finalized
    then (r, throws network_exception)
    else (if not (member name r.my_objects)
        then (record r { my_objects = r.my_objects ++ (name ∷ []) }, ok tt)
        else (r, throws network_exception))

-- `finalizeRegistrations`
unfoldable pub finalize_registrations : Action Registry (Unit {0})
finalize_registrations r = (record r { registrations_are_finalized = true }, ok tt)

-- The check of `prepareFork`, before `notifyFork`
unfoldable pub prepare_fork : Action Registry (Unit {0})
prepare_fork r = (r, if not r.can_fork then throws network_exception else ok tt)
