-- ===== src/SyncAlgorithm/Optimistic/Deserting.antt =====
-- syncalgorithms/optimisticticksyncalgo.cpp: a child after a message has reached it.
use fncs.Base.{
  ℕ, ◌≤◌, ◌≡◌, refl, subst, arith, Bool, true, false, Result, ok, throws, assert_fails, undefined,
  ltb, if◌then◌else◌,
}
use fncs.Base.Actions.{Action, Returns, Returns->>=, Returns-if, Returns-imp, resume, ◌>>◌}
use fncs.Message.{Message}
use fncs.SyncAlgorithm.{Manager, ask}
use fncs.SyncAlgorithm.Optimistic.{
  action_failed, System, Forking, Optimistic, on_sync, change_system, through_comm, detach_time_shm,
}
use fncs.SyncAlgorithm.Optimistic.Deciding.{node_received_message, time_step_start}

-- What follows a call that comes back is undefined.
undefined-after :
    {S A B : Type 0} (Q : S → A → Type 0) (m : S × Result A) (f : A → Action S B)
    → Returns Q m
    → ((s : S) (a : A) → Q s a → (f a s).1 ≡ undefined)
    → (resume m f).1 ≡ undefined
undefined-after Q (s, ok a) f q h = h s a q
undefined-after Q (s, throws e) f q h = elim q [ ]
undefined-after Q (s, assert_fails) f q h = elim q [ ]
undefined-after Q (s, undefined) f q h = elim q [ ]

undefined-if :
    {S A : Type 0} (c : Bool) (x y : S × Result A)
    → (c ≡ true → x.1 ≡ undefined)
    → (c ≡ false → y.1 ≡ undefined)
    → (if c then x else y).1 ≡ undefined
undefined-if true x y h k = h refl
undefined-if false x y h k = k refl

undefined-through :
    {S A B : Type 0} (c : Bool) (x : S × Result A) (s : S) (f : A → Action S B)
    → c ≡ false
    → (resume (if c then x else (s, undefined)) f).1 ≡ undefined
undefined-through true x s f e = cc
undefined-through false x s f e = refl

-- The state in which a call of the manager leaves the rest, where the call comes back
Returns-state :
    {S M A : Type 0} (P : S → Type 0) (s : S) (r : M × Result A)
    → Returns (λ m _. Unit {0}) r
    → P s
    → Returns (λ s' _. P s') (s, r.1)
Returns-state P s (m, ok a) h p = p
Returns-state P s (m, throws e) h p = elim h [ ]
Returns-state P s (m, assert_fails) h p = elim h [ ]
Returns-state P s (m, undefined) h p = elim h [ ]

module _ {M Y : Type 0} (sys : System Y) (mg : Manager M) (fk : Forking M)
    (detaches : (y : Y) → (sys.shm_dt y).1 ≡ true)
    (waits : (m : M) → Returns (λ m' _. Unit {0}) (mg.waitfor_all m)) where
  -- A child that holds no segment, as it was granted a time before
  Deserted : (granted_time : ℕ) → Optimistic M Y → Type 0
  Deserted t s = (s.is_child ≡ true) × (s.comm ≡ false) × (s.sync.granted_time ≡ t)

  detach-Deserted :
      (s : Optimistic M Y)
      → s.is_child ≡ true
      → Returns (λ s' _. Deserted s.sync.granted_time s') (detach_time_shm sys s)
  unfolding detach_time_shm Deserted
  detach-Deserted s child =
      Returns-if (λ s' _. Deserted s.sync.granted_time s') s.comm _ _
        (λ _. rw (detaches s.system) (child, refl, refl)) (λ e. (child, e, refl))

  received-Deserted :
      (given : Message) (s : Optimistic M Y)
      → s.is_child ≡ true
      → s.comm ≡ true
      → Returns
          (λ s' b. (b ≡ false) × Deserted s.sync.granted_time s')
          (node_received_message sys fk given s)
  unfolding node_received_message
  received-Deserted given s child holds =
      let P : Optimistic M Y → Bool → Type 0 =
        λ s' b. (b ≡ false) × Deserted s.sync.granted_time s' in
      Returns-if P s.is_child _ _
        (λ _.
          Returns->>= (λ s' _. (s'.is_child ≡ true) × (s'.sync.granted_time ≡ s.sync.granted_time))
            P (through_comm (change_system (sys.write_action action_failed)) s) _
            (Returns-if
              (λ s' _. (s'.is_child ≡ true) × (s'.sync.granted_time ≡ s.sync.granted_time)) s.comm _
              _ (λ _. (child, refl)) (λ e. absurd (cc (holds, e))))
            (λ s1 _ (child1, same).
              Returns->>= (λ s' _. Deserted s1.sync.granted_time s') P (detach_time_shm sys s1) _
                (detach-Deserted s1 child1) (λ s2 _ d. (refl, subst (λ t. Deserted t s2) same d))))
        (λ e. absurd (cc (child, e)))

  begins-undefined :
      (t granted_time : ℕ) (s : Optimistic M Y)
      → granted_time ≤ t
      → Deserted granted_time s
      → (time_step_start sys fk mg t s).1 ≡ undefined
  unfolding time_step_start Deserted
  begins-undefined t granted_time s due (child, gone, same) =
      undefined-if (ltb t s.sync.granted_time) _ _
        (λ early. absurd (ground (arith, early, due, same)))
        (λ _.
          undefined-if s.is_child _ _
            (λ _.
              undefined-after (λ s' _. s'.comm ≡ false) (on_sync (ask mg.waitfor_all) s) _
                (Returns-state {S = Optimistic M Y} (λ s'. s'.comm ≡ false)
                  (record s {
                    sync = record s.sync { interface = (mg.waitfor_all s.sync.interface).0 };
                  })
                  (mg.waitfor_all s.sync.interface) (waits s.sync.interface) gone)
                (λ s1 _ gone1. undefined-through s1.comm _ s1 _ gone1))
            (λ e. absurd (cc (child, e))))

  -- Let giving up the segment work, and let waiting for the other simulators come back. When a message
  -- reaches a child that holds its segment, the callback answers that it shall be ignored. When the
  -- child then starts its time step at the time that it was granted, or later, its behaviour is
  -- undefined.
  pub time_step_start-node_received_message :
      (given : Message) (t : ℕ) (s : Optimistic M Y)
      → s.is_child ≡ true
      → s.comm ≡ true
      → s.sync.granted_time ≤ t
      → Returns (λ s' b. b ≡ false) (node_received_message sys fk given s)
        × (((node_received_message sys fk given >> time_step_start sys fk mg t) s).1 ≡ undefined)
  time_step_start-node_received_message given t s child holds due = (
    Returns-imp (λ s' b. (b ≡ false) × Deserted s.sync.granted_time s') (λ s' b. b ≡ false)
        (node_received_message sys fk given s) (received-Deserted given s child holds)
        (λ s' b h. h.0),
    undefined-after (λ s' b. (b ≡ false) × Deserted s.sync.granted_time s')
        (node_received_message sys fk given s) _ (received-Deserted given s child holds)
        (λ s' b h. begins-undefined t s.sync.granted_time s' due (h.1)),
  )
