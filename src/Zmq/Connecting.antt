-- ===== src/Zmq/Connecting.antt =====
-- zmqnetworkinterface.cpp: how a client joins the broker's federation, at first and after a fork. The
-- sockets are new each time, with what will be found on them as arguments; the identity that
-- `gen_id` makes, and by which the broker knows the client, is not kept.
use fncs.Base.{
  ℕ, pos, negsuc, Bool, true, false, Option, none, some, List, [], Name, Result, ok, undefined,
}
use fncs.Base.Actions.{Action, pure, lift, modify, ◌>>=◌, ◌>>◌}
use fncs.Network.Registry.{new_registry}
use fncs.Broker.{Frame, not_valid, context_id}
use fncs.Broker.Main.{ignore, hello, child_init}
use fncs.Broker.Main
use fncs.Zmq.{Client, request, i_recv}
use fncs.Zmq.Operations.{async_request, recv}

-- `ZmqNetworkInterface::ZmqNetworkInterface(string, bool)`, but for `init`. The constructor leaves
-- `messageCallBack` as it is found in memory, so whether it is set is an argument.
unfoldable pub new_client :
    (i_am_net_sim has_call_back : Bool)
    → (polls : List (List Frame)) → (answers : List Frame) → Client
unfolding new_registry
new_client i_am_net_sim has_call_back polls answers = record {
  registry = new_registry true;
  context = negsuc 0;
  i_am_net_sim = i_am_net_sim;
  global_object_count = 0;
  received_messages = [];
  has_call_back = has_call_back;
  delivered = [];
  requests = [];
  async_requests = [];
  polls = polls;
  answers = answers;
}

abbrev pub as_context : Frame → Result ℕ
as_context (context_id n) = ok n
as_context other = undefined

-- The answer is the number of the context, so that `assert(this->context >= 0)` holds.
unfoldable pub join : Action Client (Unit {0})
unfolding i_recv async_request
join = do
  frame ← i_recv
  context ← lift (as_context frame)
  modify (λ c. record c { context = pos context })
  async_request ignore

-- `init`
unfoldable pub init : Action Client (Unit {0})
unfolding request join
init c = (request (hello c.i_am_net_sim c.context) >> join) c

-- `child_reinit`
unfoldable pub child_reinit : (old_id : Name) → Action Client (Unit {0})
unfolding request join
child_reinit old_id c = (request (child_init c.i_am_net_sim c.context old_id) >> join) c

-- `parent_reinit`; a status is given where the process exits.
unfoldable pub parent_reinit : (old_id : Name) → Action Client (Option ℕ)
unfolding request async_request
parent_reinit old_id = do
  request (Main.parent_reinit old_id)
  frame ← recv
  elim frame [ not_valid ↦ pure (some 0) | other ↦ async_request ignore >> pure none ]

-- `ZmqNetworkInterface::ZmqNetworkInterface(const ZmqNetworkInterface &)`, but for the reinitialisation
unfoldable pub copy_client : Client → (polls : List (List Frame)) → (answers : List Frame) → Client
copy_client that polls answers = record that {
  received_messages = [];
  delivered = [];
  requests = [];
  async_requests = [];
  polls = polls;
  answers = answers;
}

-- `duplicateInterface`, with what `Integrator::isChild` answers
unfoldable pub duplicate_interface :
    (is_child : Bool) (old_id : Name) (that : Client) (polls : List (List Frame))
    (answers : List Frame)
    → Client × Result (Option ℕ)
unfolding copy_client child_reinit parent_reinit
duplicate_interface true old_id that polls answers =
    (child_reinit old_id >> pure none) (copy_client that polls answers)
duplicate_interface false old_id that polls answers =
    parent_reinit old_id (copy_client that polls answers)
