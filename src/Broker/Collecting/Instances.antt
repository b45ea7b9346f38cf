-- ===== src/Broker/Collecting/Instances.antt =====
-- The handlers of Rounds as gatherings, over a valid context.
use fncs.Base.{
  ℕ, suc, ◌≡◌, ◌<◌, refl, ◌∙◌, arith, true, false, List, [], length, Name, name_key, nat_key, ◌==◌,
  Table, has_key, put, put_new, add_key, length-add_key, has_key-add_key, member, include_new,
  add_member, length-add_member, member-add_member, ltb, if◌then◌else◌,
}
use fncs.Broker.{Context, return}
use fncs.Broker.Rounds.{
  reduce_min_time_handler, answer_min_time, reduce_send_recv_handler, answer_send_recv,
  barrier_handler, reduce_fail_time_handler, answer_fail_time, barrier_checker,
}
use fncs.Broker.Collecting.{Gathering}

pub has_key-nil : (V : Type 0) (n : Name) → has_key {V = V} n [] ≡ false
unfolding has_key
has_key-nil V n = refl

pub member-nil : (n : Name) → member n [] ≡ false
unfolding member
member-nil n = refl

-- The checks that every round makes on the number of contributions.
pub check_waits {ℓ} :
    {A : Type ℓ} (world n : ℕ) (too_many complete waiting : A)
    → n < world
    → (if ltb world n then too_many else (if n == world then complete else waiting)) ≡ waiting
check_waits world n x y z h = ground arith

pub check_closes {ℓ} :
    {A : Type ℓ} (world n : ℕ) (too_many complete waiting : A)
    → n ≡ world
    → (if ltb world n then too_many else (if n == world then complete else waiting)) ≡ complete
check_closes world n x y z h = ground arith

module _ (c : Context) (valid : c.valid ≡ true) where
  abbrev pub min_time_context : Table Name ℕ → Context
  min_time_context t = record c { reduce_min_time = t }

  pub min_time_waits :
      (n : Name) (v : ℕ) (t : Table Name ℕ)
      → has_key n t ≡ false
      → suc (length t) < c.world_size
      → reduce_min_time_handler n v (min_time_context t) ≡ return (min_time_context (add_key n v t))
  unfolding reduce_min_time_handler
  min_time_waits n v t h k =
      rw (h, valid, put_new n v t h)
        (check_waits c.world_size _ _ _ _ (omega (arith, length-add_key n v t)))

  pub min_time_closes :
      (n : Name) (v : ℕ) (t : Table Name ℕ)
      → has_key n t ≡ false
      → suc (length t) ≡ c.world_size
      → reduce_min_time_handler n v (min_time_context t)
        ≡ answer_min_time (min_time_context (add_key n v t)) (add_key n v t)
  unfolding reduce_min_time_handler
  min_time_closes n v t h k =
      rw (h, valid, put_new n v t h) (check_closes c.world_size _ _ _ _ (length-add_key n v t ∙ k))

  unfoldable pub min_time_gathering : Gathering ℕ (Table Name ℕ)
  min_time_gathering = record {
    handle = reduce_min_time_handler;
    context = min_time_context;
    empty = [];
    add = add_key;
    has = has_key;
    size = length;
    world = c.world_size;
    finish = λ t. answer_min_time (min_time_context t) t;
    has-empty = has_key-nil ℕ;
    size-empty = refl;
    has-add = has_key-add_key;
    size-add = length-add_key;
    waits = min_time_waits;
    closes = min_time_closes;
  }

  abbrev pub fail_time_context : Table Name ℕ → Context
  fail_time_context t = record c { reduce_fail_time = t }

  pub fail_time_waits :
      (n : Name) (v : ℕ) (t : Table Name ℕ)
      → has_key n t ≡ false
      → suc (length t) < c.world_size
      → reduce_fail_time_handler n v (fail_time_context t)
        ≡ return (fail_time_context (add_key n v t))
  unfolding reduce_fail_time_handler
  fail_time_waits n v t h k =
      rw (h, valid, put_new n v t h)
        (check_waits c.world_size _ _ _ _ (omega (arith, length-add_key n v t)))

  pub fail_time_closes :
      (n : Name) (v : ℕ) (t : Table Name ℕ)
      → has_key n t ≡ false
      → suc (length t) ≡ c.world_size
      → reduce_fail_time_handler n v (fail_time_context t)
        ≡ answer_fail_time (fail_time_context (add_key n v t)) (add_key n v t)
  unfolding reduce_fail_time_handler
  fail_time_closes n v t h k =
      rw (h, valid, put_new n v t h) (check_closes c.world_size _ _ _ _ (length-add_key n v t ∙ k))

  unfoldable pub fail_time_gathering : Gathering ℕ (Table Name ℕ)
  fail_time_gathering = record {
    handle = reduce_fail_time_handler;
    context = fail_time_context;
    empty = [];
    add = add_key;
    has = has_key;
    size = length;
    world = c.world_size;
    finish = λ t. answer_fail_time (fail_time_context t) t;
    has-empty = has_key-nil ℕ;
    size-empty = refl;
    has-add = has_key-add_key;
    size-add = length-add_key;
    waits = fail_time_waits;
    closes = fail_time_closes;
  }

  abbrev pub barrier_context : List Name → Context
  barrier_context s = record c { barrier = s }

  pub barrier_waits :
      (n : Name) (v : Unit {0}) (s : List Name)
      → member n s ≡ false
      → suc (length s) < c.world_size
      → barrier_handler n (barrier_context s) ≡ return (barrier_context (add_member n s))
  unfolding barrier_handler
  barrier_waits n v s h k = rw (h, valid, include_new n s h) (ground (arith, length-add_member n s))

  pub barrier_closes :
      (n : Name) (v : Unit {0}) (s : List Name)
      → member n s ≡ false
      → suc (length s) ≡ c.world_size
      → barrier_handler n (barrier_context s) ≡ barrier_checker (barrier_context (add_member n s))
  unfolding barrier_handler
  barrier_closes n v s h k = rw (h, valid, include_new n s h)

  unfoldable pub barrier_gathering : Gathering (Unit {0}) (List Name)
  barrier_gathering = record {
    handle = λ n v. barrier_handler n;
    context = barrier_context;
    empty = [];
    add = λ n v s. add_member n s;
    has = member;
    size = length;
    world = c.world_size;
    finish = λ s. barrier_checker (barrier_context s);
    has-empty = member-nil;
    size-empty = refl;
    has-add = λ n j v s. member-add_member n j s;
    size-add = λ n v s. length-add_member n s;
    waits = barrier_waits;
    closes = barrier_closes;
  }

  -- The two tables of a send and receive round.
  abbrev pub send_recv_context : Table Name ℕ × Table Name ℕ → Context
  send_recv_context (s, r) = record c { reduce_sent = s; reduce_recv = r }

  abbrev pub add_send_recv :
      Name → ℕ × ℕ → Table Name ℕ × Table Name ℕ → Table Name ℕ × Table Name ℕ
  add_send_recv n (sent, recv) (s, r) = (add_key n sent s, put n recv r)

  pub send_recv_waits :
      (n : Name) (v : ℕ × ℕ) (t : Table Name ℕ × Table Name ℕ)
      → has_key n t.0 ≡ false
      → suc (length t.0) < c.world_size
      → reduce_send_recv_handler n v.0 v.1 (send_recv_context t)
        ≡ return (send_recv_context (add_send_recv n v t))
  unfolding reduce_send_recv_handler
  send_recv_waits n (sent, recv) (s, r) h k =
      rw (h, valid, put_new n sent s h)
        (check_waits c.world_size _ _ _ _ (omega (arith, length-add_key n sent s)))

  pub send_recv_closes :
      (n : Name) (v : ℕ × ℕ) (t : Table Name ℕ × Table Name ℕ)
      → has_key n t.0 ≡ false
      → suc (length t.0) ≡ c.world_size
      → reduce_send_recv_handler n v.0 v.1 (send_recv_context t)
        ≡ answer_send_recv (send_recv_context (add_send_recv n v t))
  unfolding reduce_send_recv_handler
  send_recv_closes n (sent, recv) (s, r) h k =
      rw (h, valid, put_new n sent s h)
        (check_closes c.world_size _ _ _ _ (length-add_key n sent s ∙ k))

  unfoldable pub send_recv_gathering : Gathering (ℕ × ℕ) (Table Name ℕ × Table Name ℕ)
  send_recv_gathering = record {
    handle = λ n v. reduce_send_recv_handler n v.0 v.1;
    context = send_recv_context;
    empty = ([], []);
    add = add_send_recv;
    has = λ n t. has_key n t.0;
    size = λ t. length t.0;
    world = c.world_size;
    finish = λ t. answer_send_recv (send_recv_context t);
    has-empty = has_key-nil ℕ;
    size-empty = refl;
    has-add = λ n j v t. has_key-add_key n j v.0 t.0;
    size-add = λ n v t. length-add_key n v.0 t.0;
    waits = send_recv_waits;
    closes = send_recv_closes;
  }
