-- ===== src/Zmq/Joined.antt =====
-- zmqnetworkinterface.cpp with fncsbroker.cpp: the clients of a federation join it.
use mathlib.Core.List.{Perm}
use fncs.Base.{
  ℕ, pos, negsuc, ◌≤◌, ◌<◌, ◌≡◌, refl, ap, ◌∙◌, Bool, List, [], ◌∷◌, ◌++◌, length, map, Name, ok,
  keys, values,
}
use fncs.Broker.{Frame, context_id, done, replies}
use fncs.Broker.Main.{Event, on_broker, ignore, hello, main_loop, new_broker}
use fncs.Broker.Main.Startup.{first_hello, first_context, net_sims, net_sim_of, startup}
use fncs.Broker.Collecting.{Distinct}
use fncs.Zmq.{Client, i_recv, poll, process_all}
use fncs.Zmq.Connecting.{new_client, init}

-- What `init` of a new client sends to the broker before it gets an answer, and what reaches the broker
-- from all of the clients
abbrev pub greetings : (has_call_back : Bool) → Name × Bool → List Event
greetings has_call_back (n, net_sim) =
    map (on_broker n (pos 0)) (init (new_client net_sim has_call_back [] [])).0.requests

abbrev pub all_greetings : (has_call_back : Bool) → List (Name × Bool) → List Event
all_greetings b [] = []
all_greetings b (c ∷ cs) = greetings b c ++ all_greetings b cs

-- A client in a context, after its first request and the frame that forces a connection
abbrev pub joined : (net_sim has_call_back : Bool) (context : ℕ) → Client
joined net_sim has_call_back context = record (new_client net_sim has_call_back [] []) {
  context = pos context;
  requests = hello net_sim (negsuc 0) ∷ [];
  async_requests = ignore ∷ [];
}

init-joined :
    (net_sim b : Bool) (n : ℕ)
    → init (new_client net_sim b [] (context_id n ∷ [])) ≡ (joined net_sim b n, ok tt)
unfolding init new_client i_recv poll process_all
init-joined net_sim b n = refl

all_greetings-eq : (b : Bool) (cs : List (Name × Bool)) → all_greetings b cs ≡ map first_hello cs
unfolding init new_client i_recv poll process_all
all_greetings-eq b [] = refl
all_greetings-eq b ((n, net_sim) ∷ cs) =
    ap (λ es. first_hello (n, net_sim) ∷ es) (all_greetings-eq b cs)

-- Let the clients of a federation, at least one, be constructed in any order, with distinct identities and
-- at most one as the network simulator, and let what each sends before it has an answer reach a new
-- broker. Then the broker sends each client one frame, and its state is a new one but for one context,
-- the first context of just these clients. A client that finds this frame when no message has arrived
-- comes back from its construction in context 0, after one greeting and the frame that connects it to the
-- broker's other socket.
pub init-startup :
    (has_call_back : Bool) (total : ℕ) (cs : List (Name × Bool))
    → Distinct (keys cs)
    → length cs ≡ total
    → 0 < total
    → net_sims (values cs) ≤ 1
    → (frame : Frame) × (names : List Name) × (main_loop
          (all_greetings has_call_back cs)
          (new_broker total)
        ≡ done
            (record (new_broker total) {
              contexts = first_context total names (net_sim_of [] cs) ∷ [];
            })
            (replies frame names))
      × Perm names (keys cs)
      × ((net_sim : Bool)
          → init (new_client net_sim has_call_back [] (frame ∷ []))
            ≡ (joined net_sim has_call_back 0, ok tt))
init-startup has_call_back total cs distinct size some one =
    let (names, runs, all) = startup total cs distinct size some one in
    (
      context_id 0,
      names,
      ap (λ es. main_loop es (new_broker total)) (all_greetings-eq has_call_back cs) ∙ runs,
      all,
      λ net_sim. init-joined net_sim has_call_back 0,
    )
