-- ===== src/Broker/Main/Invariant/Brokers.antt =====
-- The handlers of the broker keep its size and that of the worlds.
use fncs.Base.{
  subst, sym, ℕ, zero, suc, ◌≡◌, arith, Bool, true, false, not, Option, none, some, List, [], ◌∷◌,
  ◌++◌, All, length, get_elem?, values, set, Name, name_key, nat_key, ◌==◌, has_key, put, ltb, ℤ,
  pos, negsuc, include, int_key,
}
use fncs.Broker.{
  Context, Broker, Outcome, done, faults, return, graceful_death, exit_failure, die_parent, publish,
  replies, context_id, get_context, set_context, at_context, assert,
}
use fncs.Broker.Contexts.{
  add_context, new_context, open_context, greet_net_sim, hello_handler, open_child,
  child_init_checker, child_init_handler, relabel, number, parent_reinit_checker, include_all,
  has_no_parent, is_empty,
}
use fncs.Broker.Routing.{logical_id, register_handler}
use fncs.Broker.Main.Invariant.Handlers.{Fits, parent_reinit_checker-Fits, finished-Fits}
use fncs.Broker.Main.{
  invalidate, end_parents, succeed_checker, succeed_handler, finished_handler, handle_finished,
}
use fncs.Broker.Main.Invariant.Outcomes.{
  Post, on_done, on_exits, on_faults, Post-after, Post->>=, Post-if, Post-any,
}

pub record Bounded (total : ℕ) (b : Broker) : Type 0 where
  pub size : b.total_size ≡ total
  pub worlds : All (Fits total) b.contexts

All-set {ℓ κ} :
    {A : Type ℓ} (P : A → Type κ) (xs : List A) (n : ℕ) (a : A)
    → All P xs
    → P a
    → All P (set xs n a)
All-set P [] n a h p = tt
All-set P (x ∷ xs) zero a h p = (p, h.1)
All-set P (x ∷ xs) (suc n) a h p = (h.0, All-set P xs n a h.1 p)

All-snoc {ℓ κ} :
    {A : Type ℓ} (P : A → Type κ) (xs : List A) (a : A) → All P xs → P a → All P (xs ++ (a ∷ []))
All-snoc P [] a h p = (p, tt)
All-snoc P (x ∷ xs) a h p = (h.0, All-snoc P xs a h.1 p)

module _ (total : ℕ) where
  get_context_pos-Fits :
      (cs : List Context) (n : ℕ)
      → All (Fits total) cs
      → Post (Fits total) (elim (get_elem? cs n) [ none ↦ faults | some c ↦ return c ])
  get_context_pos-Fits [] n h = on_faults
  get_context_pos-Fits (c ∷ cs) zero h = on_done _ _ h.0
  get_context_pos-Fits (c ∷ cs) (suc n) h = get_context_pos-Fits cs n h.1

  get_context-Fits : (b : Broker) (i : ℤ) → Bounded total b → Post (Fits total) (get_context b i)
  unfolding get_context
  get_context-Fits b (negsuc n) h = on_faults
  get_context-Fits b (pos n) h = get_context_pos-Fits b.contexts n h.worlds

  pub set_context-Bounded :
      (b : Broker) (i : ℤ) (c : Context)
      → Bounded total b
      → Fits total c
      → Bounded total (set_context b i c)
  unfolding set_context
  set_context-Bounded b (negsuc n) c h k = h
  set_context-Bounded b (pos n) c h k = record {
    size = h.size;
    worlds = All-set (Fits total) b.contexts n c h.worlds k;
  }

  pub at_context-Bounded :
      (i : ℤ) (f : Context → Outcome Context) (b : Broker)
      → ((c : Context) → Fits total c → Post (Fits total) (f c))
      → Bounded total b
      → Post (Bounded total) (at_context i f b)
  unfolding at_context
  at_context-Bounded i f b keeps h =
      Post->>= (get_context-Fits b i h)
        (λ c k. Post->>= (keeps c k) (λ c' k'. on_done _ _ (set_context-Bounded b i c' h k')))

  pub invalidate-Bounded :
      (ps : List ℤ) (b : Broker) → Bounded total b → Post (Bounded total) (invalidate ps b)
  unfolding invalidate
  invalidate-Bounded [] b h = on_done _ _ h
  invalidate-Bounded (p ∷ ps) b h =
      Post->>=
        (at_context-Bounded p (λ c. return (record c { valid = false })) b (λ c k. on_done _ _ k) h)
        (λ b' h'. invalidate-Bounded ps b' h')

  pub end_parents-Bounded :
      (ps : List ℤ) (b : Broker) → Bounded total b → Post (Bounded total) (end_parents ps b)
  unfolding end_parents
  end_parents-Bounded [] b h = on_faults
  end_parents-Bounded (p ∷ ps) b h =
      Post-after (publish (die_parent p) ∷ []) (invalidate-Bounded (p ∷ ps) b h)

  pub succeed-Bounded :
      (n : Name) (i : ℤ) (b : Broker)
      → Bounded total b
      → Post (Bounded total) (succeed_handler n i b)
  unfolding succeed_handler succeed_checker
  succeed-Bounded n i b h = Post->>= (get_context-Fits b i h) (λ c k.
      let k' : Bounded total (set_context b i (record c { succed = [] })) =
        set_context-Bounded b i _ h k in
      let k'' : Bounded total (set_context b i (record c { succed = include n c.succed })) =
        set_context-Bounded b i _ h k in
      search (Post-if, on_done, on_exits, end_parents-Bounded) depth 9)

  pub finish-Bounded :
      (n : Name) (i : ℤ) (b : Broker)
      → Bounded total b
      → Post (λ r. Bounded total r.0) (handle_finished n i b)
  unfolding handle_finished
  finish-Bounded n i b h = Post->>= (get_context-Fits b i h) (λ c k.
      Post->>=
        (subst (λ t. Post (λ r. Fits total r.0) (finished_handler n t c)) (sym h.size)
          (finished-Fits total n c k))
        (λ r k'. on_done _ _ (set_context-Bounded b i r.0 h k')))

  -- The handlers that take the size of the federation, in a broker of that size
  pub in_size :
      (f : ℕ → Context → Outcome Context) (b : Broker)
      → ((c : Context) → Fits total c → Post (Fits total) (f total c))
      → Bounded total b
      → (c : Context) → Fits total c
      → Post (Fits total) (f b.total_size c)
  in_size f b keeps h c k = subst (λ t. Post (Fits total) (f t c)) (sym h.size) (keeps c k)

  pub register_new-Bounded :
      (name : Name) (b : Broker) (o : Option ℕ)
      → Bounded total b
      → Post (Bounded total) (elim o [
        | none ↦ graceful_death exit_failure
        | some n ↦ return (record b { obj_to_id = put name n b.obj_to_id })
      ])
  register_new-Bounded name b none h = on_exits _ _
  register_new-Bounded name b (some n) h = on_done _ _ (record { size = h.size; worlds = h.worlds })

  pub register-Bounded :
      (n : Name) (i : ℤ) (name : Name) (b : Broker)
      → Bounded total b
      → Post (Bounded total) (register_handler n i name b)
  unfolding register_handler
  register-Bounded n i name b h = Post->>= (get_context-Fits b i h) (λ c k.
      Post-if (n == c.net_sim_id) (on_done _ _ (set_context-Bounded b i _ h k)) (
        Post-if (has_key name b.obj_to_id) (on_exits _ _)
          (register_new-Bounded name b (logical_id n 0 c.logical_to_real) h)))

  pub add_context-Bounded : (b : Broker) → Bounded total b → Bounded total (add_context b)
  unfolding add_context new_context
  add_context-Bounded b h = record {
    size = h.size;
    worlds = All-snoc (Fits total) b.contexts (new_context b) h.worlds (omega (arith, h.size));
  }

  pub open_context-Bounded :
      (i : ℤ) (b : Broker) → Bounded total b → Post (Bounded total) (open_context i b)
  unfolding open_context
  open_context-Bounded i b h = Post-after _ (
      Post->>= (Post-any (assert (length b.new_parents == 1))) (λ u w.
        Post->>=
          (Post-if (has_no_parent b.new_parents)
            (at_context-Bounded i
              (λ c.
                return (record c { logical_to_real = number c.logical_to_real b.new_connections }))
              (add_context b) (λ c k. on_done _ _ k) (add_context-Bounded b h))
            (on_done _ _ (add_context-Bounded b h)))
          (λ b' h'. on_done _ _ (record { size = h'.size; worlds = h'.worlds }))))

  pub greet-Bounded :
      (n : Name) (net_sim : Bool) (b : Broker)
      → Bounded total b
      → Post (Bounded total) (greet_net_sim n net_sim b)
  unfolding greet_net_sim
  greet-Bounded n net_sim b h =
      Post-if net_sim
        (Post-if (is_empty b.new_net_sim_id)
          (on_done _ _ (record { size = h.size; worlds = h.worlds })) (on_exits _ _))
        (on_done _ _ h)

  pub hello-Bounded :
      (n : Name) (i : ℤ) (net_sim : Bool) (parent : ℤ) (b : Broker)
      → Bounded total b
      → Post (Bounded total) (hello_handler n i net_sim parent b)
  unfolding hello_handler
  hello-Bounded n i net_sim parent b h =
      Post->>= (greet-Bounded n net_sim _ (record { size = h.size; worlds = h.worlds })) (λ b' h'.
        Post-if (ltb b'.total_size (length b'.new_connections)) (on_exits _ _) (
          Post-if (length b'.new_connections == b'.total_size) (open_context-Bounded i b' h')
            (on_done _ _ h')))

  pub open_child-Bounded :
      (p : Context) (b : Broker) → Bounded total b → Post (Bounded total) (open_child p b)
  unfolding open_child
  open_child-Bounded p b h =
      let names = include_all (values b.child_ini_map) b.new_connections in
      Post->>= (Post-any (relabel b.child_ini_map p.logical_to_real)) (λ renamed u.
        Post->>=
          (at_context-Bounded (pos (length b.contexts))
            (λ c.
              done (record c { members = names; logical_to_real = renamed })
                (replies (context_id (length b.contexts)) names))
            (add_context b) (λ c k. on_done _ _ k) (add_context-Bounded b h))
          (λ b' h'. on_done _ _ (record { size = h'.size; worlds = h'.worlds })))

  pub child_init_checker-Bounded :
      (i : ℤ) (b : Broker) → Bounded total b → Post (Bounded total) (child_init_checker i b)
  unfolding child_init_checker
  child_init_checker-Bounded i b h =
      Post-if (not (length b.child_ini_map == b.total_size)) (on_done _ _ h) (
        Post->>= (get_context-Fits b i h) (λ p k. Post->>= (Post-any (assert p.valid)) (λ u1 w1.
          Post->>= (Post-any (assert (length b.new_connections == 0))) (λ u2 w2.
            Post->>= (Post-any (assert (length b.new_parents == 1))) (λ u3 w3.
              Post->>= (Post-any (assert (not (is_empty b.new_net_sim_id)))) (λ u4 w4.
                Post->>= (open_child-Bounded p b h) (λ b' h'.
                  at_context-Bounded i
                    (λ c.
                      parent_reinit_checker b.total_size (record c { child_init_complete = true }))
                    b'
                    (in_size
                      (λ t c. parent_reinit_checker t (record c { child_init_complete = true })) b
                      (λ c k'.
                        parent_reinit_checker-Fits total (record c { child_init_complete = true })
                          k')
                      h)
                    h')))))))

  pub child_init-Bounded :
      (n : Name) (net_sim : Bool) (parent : ℤ) (old_id : Name) (b : Broker)
      → Bounded total b
      → Post (Bounded total) (child_init_handler n net_sim parent old_id b)
  unfolding child_init_handler
  child_init-Bounded n net_sim parent old_id b h =
      Post-if (ltb b.total_size (length b.child_ini_map)) (on_exits _ _) (
        Post-if (has_key old_id b.child_ini_map) (on_exits _ _)
          (child_init_checker-Bounded parent _ (record { size = h.size; worlds = h.worlds })))
