-- ===== src/Broker/Collecting/MinTimeAction.antt =====
-- A round of `reduce_min_time_action`.
use mathlib.Core.Logic.Or
use mathlib.Core.List.{Perm, Mem-prop, append-nil, mem-cons, mem-cons_self, mem-cons_of_mem}
use mathlib.Core.List.Perm
use fncs.Base.{
  ℕ, suc, ◌≡◌, ◌<◌, ◌≤◌, refl, sym, ◌∙◌, subst, arith, true, false, List, [], ◌∷◌, length,
  length-map, All, map, Name, name_key, Table, keys, values, has_key, put_new, add_key,
  length-add_key, has_key-add_key, ltb, if◌then◌else◌,
}
use fncs.Time.{infinity}
use fncs.Broker.{AggregateType, Context, Outcome, done, return, replies, time_action, min_element}
use fncs.Broker.Rounds.{reduce_min_time_action_handler, min_time_action}
use fncs.Broker.Collecting.{Distinct, Gathering, run, collect, collect-perm, round}
use fncs.Broker.Collecting.Instances.{has_key-nil, check_waits, check_closes}
use fncs.Broker.Collecting.MinTime.{IsLeast, min_element-IsLeast, IsLeast-perm}

abbrev pub times : List AggregateType → List ℕ
times xs = map (λ a. a.time) xs

abbrev pub actions : List AggregateType → List ℕ
actions xs = map (λ a. a.action) xs

min_time_action-eq-min_element :
    (mins : AggregateType) (xs : List AggregateType)
    → ((min_time_action mins xs).time ≡ min_element mins.time (times xs))
      × ((min_time_action mins xs).action ≡ min_element mins.action (actions xs))
unfolding min_time_action min_element
min_time_action-eq-min_element mins [] = (refl, refl)
min_time_action-eq-min_element mins (a ∷ xs) =
    min_time_action-eq-min_element
      (record {
        time = if ltb a.time mins.time then a.time else mins.time;
        action = if ltb a.action mins.action then a.action else mins.action;
      })
      xs

-- The bound from which the search starts does not matter.
IsLeast-tail :
    (m b : ℕ) (vs : List ℕ)
    → IsLeast m (b ∷ vs)
    → 0 < length vs
    → All (λ v. v ≤ b) vs
    → IsLeast m vs
IsLeast-tail m b [] h some bound = absurd (omega arith)
IsLeast-tail m b (v ∷ vs) h some bound = (
  λ w mem. h.0 w (mem-cons_of_mem b mem),
  Or.elim Mem-prop (mem-cons.0 h.1)
      (λ e.
        let lower : m ≤ v = h.0 v (mem-cons_of_mem b mem-cons_self) in
        let same : m ≡ v = omega (arith, bound.0) in rw same mem-cons_self)
      (λ mem. mem),
)

abbrev start : AggregateType
start = record { time = infinity; action = infinity }

module _ (c : Context) (valid : c.valid ≡ true) where
  abbrev gathering_context : Table Name AggregateType → Context
  gathering_context t = record c { reduce_min_time_action = t }

  abbrev answer : Table Name AggregateType → Outcome Context
  answer t =
      let mins = min_time_action start (values t) in
      done (record c { reduce_min_time_action = [] })
        (replies (time_action mins.time mins.action) c.members)

  action_waits :
      (n : Name) (v : AggregateType) (t : Table Name AggregateType)
      → has_key n t ≡ false
      → suc (length t) < c.world_size
      → reduce_min_time_action_handler n v (gathering_context t)
        ≡ return (gathering_context (add_key n v t))
  unfolding reduce_min_time_action_handler
  action_waits n v t h k =
      rw (h, valid, put_new n v t h)
        (check_waits c.world_size _ _ _ _ (omega (arith, length-add_key n v t)))

  action_closes :
      (n : Name) (v : AggregateType) (t : Table Name AggregateType)
      → has_key n t ≡ false
      → suc (length t) ≡ c.world_size
      → reduce_min_time_action_handler n v (gathering_context t) ≡ answer (add_key n v t)
  unfolding reduce_min_time_action_handler
  action_closes n v t h k =
      rw (h, valid, put_new n v t h) (check_closes c.world_size _ _ _ _ (length-add_key n v t ∙ k))

  unfoldable action_gathering : Gathering AggregateType (Table Name AggregateType)
  action_gathering = record {
    handle = reduce_min_time_action_handler;
    context = gathering_context;
    empty = [];
    add = add_key;
    has = has_key;
    size = length;
    world = c.world_size;
    finish = answer;
    has-empty = has_key-nil AggregateType;
    size-empty = refl;
    has-add = has_key-add_key;
    size-add = length-add_key;
    waits = action_waits;
    closes = action_closes;
  }

-- In a valid context in which no round is under way, as many simulators as its world has, at least
-- one, each send a time and an action of 64 bits once, in any order. Then every member of the context
-- gets one reply, the least of the times with the least of the actions; the context is as before.
pub reduce_min_time_action_round :
    (c : Context) (cs : List (Name × AggregateType))
    → c.valid ≡ true
    → c.reduce_min_time_action ≡ []
    → Distinct (keys cs)
    → length cs ≡ c.world_size
    → 0 < c.world_size
    → All (λ v. v ≤ infinity) (times (values cs))
    → All (λ v. v ≤ infinity) (actions (values cs))
    → (t a : ℕ) × (run reduce_min_time_action_handler cs c
        ≡ done c (replies (time_action t a) c.members))
      × IsLeast t (times (values cs))
      × IsLeast a (actions (values cs))
unfolding action_gathering
reduce_min_time_action_round c cs valid empty distinct size some ht ha =
    let g = action_gathering c valid in
    let table : Table Name AggregateType = collect g [] cs in
    let p : Perm table cs = rw append-nil at (collect-perm g [] cs (λ n v s. refl)) in
    let mins = min_time_action start (values table) in
    let (et, ea) = min_time_action-eq-min_element start (values table) in
    let pt : Perm (times (values table)) (times (values cs)) = Perm.map _ (Perm.map _ p) in
    let pa : Perm (actions (values table)) (actions (values cs)) = Perm.map _ (Perm.map _ p) in
    let lt : IsLeast mins.time (infinity ∷ times (values table)) =
      rw et (min_element-IsLeast infinity (times (values table))) in
    let la : IsLeast mins.action (infinity ∷ actions (values table)) =
      rw ea (min_element-IsLeast infinity (actions (values table))) in
    (
      mins.time,
      mins.action,
      subst
          (λ x.
            run reduce_min_time_action_handler cs x
            ≡ done x (replies (time_action mins.time mins.action) c.members))
          (λ i. record c { reduce_min_time_action = sym empty i }) (round g cs distinct size some),
      IsLeast-tail mins.time infinity (times (values cs)) (IsLeast-perm (Perm.cons infinity pt) lt)
          (omega (
            arith,
            length-map (λ x. x.1) cs,
            length-map (λ (x : AggregateType). x.time) (values cs),
          ))
          ht,
      IsLeast-tail mins.action infinity (actions (values cs))
          (IsLeast-perm (Perm.cons infinity pa) la)
          (omega (
            arith,
            length-map (λ x. x.1) cs,
            length-map (λ (x : AggregateType). x.action) (values cs),
          ))
          ha,
    )
