-- ===== src/Broker/Sleeping/Wakeups.antt =====
-- Who is answered, and who sleeps on, at the end of a round of `reduce_min_time_sleep`.
use mathlib.Core.List.{append-nil}
use fncs.Base.{
  ℕ, suc, ◌+◌, ◌≡◌, ◌<◌, ◌≤◌, refl, select, ap, sym, subst, ◌∙◌, arith, Bool, true, false, not,
  ◌&&◌, ◌||◌, Bool-cases, inl, inr, List, [], ◌∷◌, length, All, Name, name_key, nat_key, ◌==◌,
  Table, keys, values, has_key, has_key-put, put, put_new, insert, length-add_key, ltb,
  if◌then◌else◌,
}
use fncs.Broker.{TimeBool, Context, time, Outcome, done, replies}
use fncs.Broker.Sleeping.{
  answer_awake, accumulate, let_sleep, answer_sleep, add_sleeping, reduce_min_time_sleep_handler,
}

-- Every simulator that counts is known from the context's start.
abbrev pub Known : Table Name ℕ → Table Name TimeBool → Type 0
Known state incoming = All (λ n. has_key n state ≡ true) (keys incoming)

Known-put :
    (n : Name) (t : ℕ) (state : Table Name ℕ) (incoming : Table Name TimeBool)
    → Known state incoming
    → Known (put n t state) incoming
Known-put n t state [] h = tt
Known-put n t state ((m, x) ∷ incoming) h =
    (ground (arith, has_key-put n m t state, h.0), Known-put n t state incoming h.1)

abbrev pub has_time : ℕ → List TimeBool → Bool
has_time least [] = false
has_time least (x ∷ xs) = x.time == least || has_time least xs

accumulate-le-acc : (acc : TimeBool) (xs : List TimeBool) → (accumulate acc xs).time ≤ acc.time
unfolding accumulate
accumulate-le-acc acc [] = omega arith
accumulate-le-acc acc (x ∷ xs) = ground (
  arith,
  accumulate-le-acc
      (record {
        time = if ltb x.time acc.time then x.time else acc.time;
        had_message = acc.had_message || x.had_message;
      })
      xs,
)

accumulate-le :
    (acc : TimeBool) (xs : List TimeBool) → All (λ x. (accumulate acc xs).time ≤ x.time) xs
unfolding accumulate
accumulate-le acc [] = tt
accumulate-le acc (x ∷ xs) =
    let next : TimeBool = record {
      time = if ltb x.time acc.time then x.time else acc.time;
      had_message = acc.had_message || x.had_message;
    } in
    (ground (arith, accumulate-le-acc next xs), accumulate-le next xs)

has_time-accumulate :
    (acc : TimeBool) (xs : List TimeBool) → has_time (accumulate acc xs).time (acc ∷ xs) ≡ true
unfolding accumulate
has_time-accumulate acc [] = ground arith
has_time-accumulate acc (x ∷ xs) =
    let next : TimeBool = record {
      time = if ltb x.time acc.time then x.time else acc.time;
      had_message = acc.had_message || x.had_message;
    } in
    ground (arith, has_time-accumulate next xs)

-- The simulators that are answered: those that have the least time, and the network simulator
abbrev pub wakes : (net_sim : Name) (least : ℕ) → Name × TimeBool → Bool
wakes net_sim least (n, x) = x.time == least || n == net_sim

-- The times of all that count, written over the ones before
abbrev pub stored : Table Name TimeBool → Table Name ℕ → Table Name ℕ
stored [] state = state
stored ((n, x) ∷ incoming) state = stored incoming (put n x.time state)

-- What the loop over the incoming times does
record Answered (net_sim : Name) (least : ℕ) (incoming : Table Name TimeBool) (state : Table Name ℕ)
    (awake : ℕ) : Type 0 where
  names : List Name
  chosen : names ≡ keys (select (wakes net_sim least) incoming)
  result :
      answer_awake net_sim least incoming state awake
      ≡ done (stored incoming state, length names + awake) (replies (time least) names)
  at_most : length names ≤ length incoming
  at_least : has_time least (values incoming) ≡ true → 0 < length names

answer_awake_lem :
    (net_sim : Name) (least : ℕ) (incoming : Table Name TimeBool) (state : Table Name ℕ) (awake : ℕ)
    → Known state incoming
    → Answered net_sim least incoming state awake
unfolding answer_awake
answer_awake_lem net_sim least [] state awake h = record {
  names = [];
  chosen = refl;
  result = ap (λ k. done (state, k) []) (omega arith);
  at_most = omega arith;
  at_least = λ e. cc;
}
answer_awake_lem net_sim least ((n, x) ∷ incoming) state awake h =
    elim (Bool-cases (x.time == least || n == net_sim)) [
      | inl answered ↦
          let rest =
            answer_awake_lem net_sim least incoming (put n x.time state) (suc awake)
              (Known-put n x.time state incoming h.1) in
          record {
            names = n ∷ rest.names;
            chosen = rw answered (ap (λ ns. n ∷ ns) rest.chosen);
            result =
                rw (h.0, answered, rest.result)
                  (ap
                    (λ k.
                      done (stored incoming (put n x.time state), k)
                        (replies (time least) (n ∷ rest.names)))
                    (omega arith));
            at_most = omega (arith, rest.at_most);
            at_least = λ e. omega arith;
          }
      | inr asleep ↦
          let rest =
            answer_awake_lem net_sim least incoming (put n x.time state) awake
              (Known-put n x.time state incoming h.1) in
          record {
            names = rest.names;
            chosen = rw asleep rest.chosen;
            result = rw (h.0, asleep, rest.result);
            at_most = omega (arith, rest.at_most);
            at_least = λ e. ground (arith, rest.at_least);
          }
    ]

-- The outcome of a round in which nobody sleeps
pub record Settled (total : ℕ) (all : Table Name TimeBool) (c : Context) (m : Outcome Context)
    : Type 0 where
  pub least : ℕ
  pub names : List Name
  pub chosen : names ≡ keys (select (wakes c.net_sim_id least) all)
  pub result :
      m
      ≡ done
          (record c {
            sleep_state = stored all c.sleep_state;
            world_size = length names;
            sleeping_sim = not (length names == total);
            sleep_incoming = [];
          })
          (replies (time least) names)
  pub some_awake : 0 < length names
  pub fits : length names ≤ total
  pub is_least : All (λ x. least ≤ x.time) (values all)
  pub is_attained : has_time least (values all) ≡ true

answer_sleep_lem :
    (total : ℕ) (all : Table Name TimeBool) (c : Context)
    → c.sleeping_sim ≡ false
    → 0 < length all
    → length all ≤ total
    → Known c.sleep_state all
    → Settled total all c (answer_sleep total all c)
unfolding answer_sleep let_sleep
answer_sleep_lem total [] c awake some fits known = absurd (omega arith)
answer_sleep_lem total ((n, x) ∷ all) c awake some fits known =
    let least = accumulate x (x ∷ values all) in
    let attained : has_time least.time (x ∷ values all) ≡ true =
      ground (arith, has_time-accumulate x (x ∷ values all)) in
    let a = answer_awake_lem c.net_sim_id least.time ((n, x) ∷ all) c.sleep_state 0 known in
    let count : length a.names + 0 ≡ length a.names = omega arith in
    let none_left : (length a.names == 0) ≡ false = ground (arith, a.at_least attained) in
    let too_many : ltb total (length a.names) ≡ false = ground (arith, a.at_most) in
    let nobody : (least.had_message && c.sleeping_sim) ≡ false = ground arith in
    record {
      least = least.time;
      names = a.names;
      chosen = a.chosen;
      result = rw (nobody, a.result, count, none_left, too_many, append-nil);
      some_awake = a.at_least attained;
      fits = omega (arith, a.at_most);
      is_least = accumulate-le x (x ∷ values all);
      is_attained = attained;
    }

length-insert :
    {V : Type 0} (n : Name) (v : V) (t : Table Name V) → length t ≤ length (insert n v t)
unfolding insert
length-insert n v t = ground (arith, length-add_key n v t)

length-add_sleeping :
    (state : Table Name ℕ) (incoming : Table Name TimeBool)
    → length incoming ≤ length (add_sleeping state incoming)
unfolding add_sleeping
length-add_sleeping [] incoming = omega arith
length-add_sleeping ((n, t) ∷ state) incoming =
    let x : TimeBool = record { time = t; had_message = false } in
    omega (arith, length-insert n x incoming, length-add_sleeping state (insert n x incoming))

guards_passed {ℓ} :
    {A : Type ℓ} (known valid many complete : Bool) (a b d r w : A)
    → known ≡ false
    → valid ≡ true
    → many ≡ false
    → complete ≡ true
    → (if known
        then a
        else (if not valid then b else (if many then d else (if complete then r else w))))
      ≡ r
guards_passed known valid many complete a b d r w h k l m = ground arith

-- The last simulator that a round waits for sends its time to a valid context in which nobody
-- sleeps. If all that count are known from the context's start, and are no more than the
-- federation, then the least of the times is answered to just those of them that have it or are the
-- network simulator, one answer for each and at least one; their number is the size of the next round, the
-- context is marked when that is not all of the federation, and the times of all are kept.
pub reduce_min_time_sleep_round :
    (identity : Name) (x : TimeBool) (total : ℕ) (c : Context)
    → let all = add_sleeping c.sleep_state (put identity x c.sleep_incoming) in
      c.valid ≡ true
      → c.sleeping_sim ≡ false
      → has_key identity c.sleep_incoming ≡ false
      → suc (length c.sleep_incoming) ≡ c.world_size
      → length all ≤ total
      → Known c.sleep_state all
      → Settled total all c (reduce_min_time_sleep_handler identity x total c)
unfolding reduce_min_time_sleep_handler
reduce_min_time_sleep_round identity x total c valid awake new last fits known =
    let incoming = put identity x c.sleep_incoming in
    let size : length incoming ≡ c.world_size =
      rw (put_new identity x c.sleep_incoming new)
        (length-add_key identity x c.sleep_incoming ∙ last) in
    let too_many : ltb c.world_size (length incoming) ≡ false = ground arith in
    let complete : (length incoming == c.world_size) ≡ true = ground arith in
    subst (Settled total (add_sleeping c.sleep_state incoming) c)
      (sym (
        guards_passed (has_key identity c.sleep_incoming) c.valid _ _ _ _ _ _ _ new valid too_many
          complete))
      (answer_sleep_lem total (add_sleeping c.sleep_state incoming) c awake
        (omega (arith, length-add_sleeping c.sleep_state incoming)) fits known)
