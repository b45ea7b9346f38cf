-- ===== src/Broker/Main/Startup.antt =====
-- How the simulators of a federation connect.
use mathlib.Core.List.{Perm, perm_middle, append-nil}
use mathlib.Core.List.Perm
use fncs.Base.{
  ℕ, suc, ◌+◌, ◌≡◌, ◌≢◌, ◌<◌, ◌≤◌, refl, arith, Bool, true, false, List, [], ◌∷◌, ◌++◌, length, All,
  map, Name, name_key, nat_key, name_beq_iff, ◌==◌, keys, values, member, include, add_member,
  include_new, member-add_member, length-add_member, add_member-perm, ltb, if◌then◌else◌, ℤ, pos,
  negsuc, int_key,
}
use fncs.Broker.{Context, Broker, done, replies, context_id}
use fncs.Broker.Contexts.{new_context, greet_net_sim, open_context, hello_handler, is_empty}
use fncs.Broker.Main.{on_broker, hello, Event, step, main_loop, new_broker}
use fncs.Broker.Collecting.{Distinct, after_nil}

-- A simulator says hello for the first time; the flag is that of the network simulator.
abbrev pub first_hello : Name × Bool → Event
first_hello (n, net_sim) = on_broker n (pos 0) (hello net_sim (negsuc 0))

abbrev pub net_sims : List Bool → ℕ
net_sims [] = 0
net_sims (true ∷ fs) = suc (net_sims fs)
net_sims (false ∷ fs) = net_sims fs

-- The broker while the simulators of `names` wait, `net_sim` the network simulator among them.
abbrev waiting : (total : ℕ) (names : List Name) (parents : List ℤ) (net_sim : Name) → Broker
waiting total names parents net_sim = record {
  total_size = total;
  obj_to_id = [];
  new_net_sim_id = net_sim;
  new_connections = names;
  new_parents = parents;
  child_ini_map = [];
  contexts = [];
}

data NoParent : List ℤ → Type 0 where
  nobody : NoParent []
  root : NoParent (negsuc 0 ∷ [])

include-NoParent : {ps : List ℤ} → NoParent ps → include (negsuc 0) ps ≡ negsuc 0 ∷ []
unfolding include member add_member
include-NoParent nobody = refl
include-NoParent root = refl

hello_waits :
    (total : ℕ) (n : Name) (flag : Bool) (ns : List Name) (ps : List ℤ) (net_sim : Name)
    → NoParent ps
    → member n ns ≡ false
    → suc (length ns) < total
    → (flag ≡ true → is_empty net_sim ≡ true)
    → step (first_hello (n, flag)) (waiting total ns ps net_sim)
      ≡ done
          (waiting total (add_member n ns) (negsuc 0 ∷ []) (if flag then n else net_sim), false)
          []
unfolding step hello_handler greet_net_sim
hello_waits total n true ns ps net_sim p new some first =
    rw (include-NoParent p, include_new n ns new, first refl)
      (ground (arith, length-add_member n ns))
hello_waits total n false ns ps net_sim p new some first =
    rw (include-NoParent p, include_new n ns new) (ground (arith, length-add_member n ns))

-- The context of the simulators `names`
unfoldable pub first_context : (total : ℕ) (names : List Name) (net_sim : Name) → Context
first_context total names net_sim =
    record (new_context (waiting total names (negsuc 0 ∷ []) net_sim)) { logical_to_real = names }

hello_closes :
    (total : ℕ) (n : Name) (flag : Bool) (ns : List Name) (ps : List ℤ) (net_sim : Name)
    → NoParent ps
    → member n ns ≡ false
    → suc (length ns) ≡ total
    → (flag ≡ true → is_empty net_sim ≡ true)
    → let names = add_member n ns in
      step (first_hello (n, flag)) (waiting total ns ps net_sim)
      ≡ done
          (
            record (new_broker total) {
              contexts = first_context total names (if flag then n else net_sim) ∷ [];
            },
            false,
          )
          (replies (context_id 0) names)
unfolding step hello_handler greet_net_sim open_context first_context new_broker
hello_closes total n true ns ps net_sim p new some first =
    let full : length (add_member n ns) ≡ total = omega (arith, length-add_member n ns) in
    let less : ltb total (length (add_member n ns)) ≡ false = ground arith in
    let same : (length (add_member n ns) == total) ≡ true = ground arith in
    rw (include-NoParent p, include_new n ns new, first refl, less, same, append-nil)
hello_closes total n false ns ps net_sim p new some first =
    let full : length (add_member n ns) ≡ total = omega (arith, length-add_member n ns) in
    let less : ltb total (length (add_member n ns)) ≡ false = ground arith in
    let same : (length (add_member n ns) == total) ≡ true = ground arith in
    rw (include-NoParent p, include_new n ns new, less, same, append-nil)

-- The name of the last that says it is the network simulator
abbrev pub net_sim_of : Name → List (Name × Bool) → Name
net_sim_of net_sim [] = net_sim
net_sim_of net_sim ((n, flag) ∷ cs) = net_sim_of (if flag then n else net_sim) cs

Fresh : List Name → List Name → Type 0
Fresh ns = All (λ m. member m ns ≡ false)

Fresh-add :
    (n : Name) (ns ms : List Name) → All (λ m. n ≢ m) ms → Fresh ns ms → Fresh (add_member n ns) ms
unfolding Fresh
Fresh-add n ns [] ne h = tt
Fresh-add n ns (m ∷ ms) ne h = (
  ground (arith, member-add_member n m ns, name_beq_iff n m, ne.0, h.0),
  Fresh-add n ns ms ne.1 h.1,
)

Fresh-nil : (ms : List Name) → Fresh [] ms
unfolding Fresh member
Fresh-nil [] = tt
Fresh-nil (m ∷ ms) = (refl, Fresh-nil ms)

-- At most one network simulator is to come, and none once there is one.
Single : Name → List Bool → Type 0
Single net_sim flags = (net_sims flags ≤ 1) × (0 < net_sims flags → is_empty net_sim ≡ true)

Single-first :
    (net_sim : Name) (flag : Bool) (flags : List Bool)
    → Single net_sim (flag ∷ flags)
    → flag ≡ true
    → is_empty net_sim ≡ true
unfolding Single
Single-first net_sim true flags h e = h.1 (omega arith)
Single-first net_sim false flags h e = cc

Single-rest :
    (n net_sim : Name) (flag : Bool) (flags : List Bool)
    → Single net_sim (flag ∷ flags)
    → Single (if flag then n else net_sim) flags
unfolding Single
Single-rest n net_sim true flags h = (omega (arith, h.0), λ k. absurd (omega (arith, h.0, k)))
Single-rest n net_sim false flags h = h

startup_lem :
    (total : ℕ) (cs : List (Name × Bool)) (ns : List Name) (ps : List ℤ) (net_sim : Name)
    → NoParent ps
    → Fresh ns (keys cs)
    → Distinct (keys cs)
    → length ns + length cs ≡ total
    → 0 < length cs
    → Single net_sim (values cs)
    → (names : List Name) × (main_loop (map first_hello cs) (waiting total ns ps net_sim)
        ≡ done
            (record (new_broker total) {
              contexts = first_context total names (net_sim_of net_sim cs) ∷ [];
            })
            (replies (context_id 0) names))
      × Perm names (keys cs ++ ns)
unfolding main_loop Fresh
startup_lem total [] ns ps net_sim p new distinct size some one = absurd (omega arith)
startup_lem total ((n, flag) ∷ []) ns ps net_sim p new distinct size some one = (
  add_member n ns,
  rw (
    hello_closes total n flag ns ps net_sim p new.0 (omega arith)
        (Single-first net_sim flag [] one),
    append-nil,
  ),
  add_member-perm n ns,
)
startup_lem total ((n, flag) ∷ x ∷ cs) ns ps net_sim p new distinct size some one =
    let (names, e, q) =
      startup_lem total (x ∷ cs) (add_member n ns) (negsuc 0 ∷ []) (if flag then n else net_sim)
        root (Fresh-add n ns (keys (x ∷ cs)) distinct.0 new.1) distinct.1
        (omega (arith, length-add_member n ns)) (omega arith)
        (Single-rest n net_sim flag (values (x ∷ cs)) one) in
    (
      names,
      rw
          (
            hello_waits total n flag ns ps net_sim p new.0 (omega arith)
                (Single-first net_sim flag (values (x ∷ cs)) one),
            after_nil,
          )
          e,
      Perm.trans q (
          Perm.trans (Perm.append_left (keys (x ∷ cs)) (add_member-perm n ns))
            (perm_middle (keys (x ∷ cs)) ns)),
    )

-- The simulators of a federation, at least one, say hello to a new broker, each once and in any
-- order, and at most one of them as the network simulator. When all have done so, each has got one
-- answer, that its context is 0, and the broker is a new one but for its one context, the first
-- context of just these simulators.
pub startup :
    (total : ℕ) (cs : List (Name × Bool))
    → Distinct (keys cs)
    → length cs ≡ total
    → 0 < total
    → net_sims (values cs) ≤ 1
    → (names : List Name) × (main_loop (map first_hello cs) (new_broker total)
        ≡ done
            (record (new_broker total) {
              contexts = first_context total names (net_sim_of [] cs) ∷ [];
            })
            (replies (context_id 0) names))
      × Perm names (keys cs)
unfolding Single new_broker
startup total cs distinct size some one =
    let (names, e, q) =
      startup_lem total cs [] [] [] nobody (Fresh-nil (keys cs)) distinct (omega arith)
        (omega arith) (one, λ h. refl) in
    (names, e, rw append-nil at q)
