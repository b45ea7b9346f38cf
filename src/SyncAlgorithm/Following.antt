-- ===== src/SyncAlgorithm/Following.antt =====
-- syncalgorithms/communicatorsimulatorsyncalgo.cpp: the time that a network simulator is granted.
use fncs.Base.{
  ℕ, ◌≤◌, ◌<◌, ◌≡◌, refl, ◌∙◌, arith, ◌⊎◌, inl, inr, true, ok, nat_key, ◌==◌, ltb, if◌then◌else◌,
  Bool-cases,
}
use fncs.Base.Actions.{Returns, Returns->>=, pure}
use fncs.Time.{infinity}
use fncs.SyncAlgorithm.{Manager, Sync, ask}
use fncs.SyncAlgorithm.Communicator.{take_answer, get_next_time}
use fncs.SyncAlgorithm.Answering.{View, Unanswered, Answers, Returns-ask}

-- The end was told, or the federation's last answer was granted.
unfoldable pub Followed : {M : Type 0} → (v : View M) → Sync M → ℕ → Type 0
Followed v s t =
    (v.last s.interface ≡ t)
    × (((t ≡ infinity) × (s.finished ≡ true)) ⊎ ((t < infinity) × (s.granted_time ≡ t)))

module _ {M : Type 0} (mg : Manager M) (v : View M) (a : Answers mg v)
    (loses : (t : ℕ) → Unanswered v v.Ready v.Ready (mg.packet_lost_calculator t)) where
  take_answer-Followed :
      (answer : ℕ) (s : Sync M)
      → v.last s.interface ≡ answer
      → answer ≤ infinity
      → Returns (Followed v) (take_answer mg answer s)
  unfolding take_answer Followed
  take_answer-Followed answer s e le = elim (Bool-cases (answer == infinity)) [
    | inl over ↦
        let same : answer ≡ infinity = ground (arith, over) in rw over (e ∙ same, inl (refl, refl))
    | inr going ↦ rw going (e, inr (ground arith, refl))
  ]

  lost :
      (diff t : ℕ) (s : Sync M)
      → v.Ready s.interface
      → Returns
          (λ s' _. (v.last s'.interface ≡ v.last s.interface) × v.Ready s'.interface)
          ((if ltb 0 diff then ask (mg.packet_lost_calculator t) else pure tt) s)
  lost diff t s ready = elim (Bool-cases (ltb 0 diff)) [
    | inl unstable ↦ rw unstable (
        Returns-ask (λ m' _. (v.last m' ≡ v.last s.interface) × v.Ready m')
          (mg.packet_lost_calculator t) s (loses t s.interface ready))
    | inr stable ↦ rw stable (refl, ready)
  ]

  -- A network simulator that asks for a time before the one it was granted last is told that one, and
  -- nothing changes. Otherwise, where the last answer was earlier than infinity, all calls of its
  -- manager come back in their turn, and every answer is no later than what was proposed and either zero or later
  -- than the answer before, the next answer comes back: it is granted, or it is infinity and the end
  -- is told.
  pub get_next_time-Followed :
      (current next : ℕ) (s : Sync M)
      → v.Ready s.interface
      → v.last s.interface < infinity
      → ((next < s.granted_time) × (get_next_time mg current next s ≡ (s, ok s.granted_time)))
        ⊎ ((s.granted_time ≤ next) × Returns (Followed v) (get_next_time mg current next s))
  unfolding get_next_time
  get_next_time-Followed current next s ready early = elim (Bool-cases (ltb next s.granted_time)) [
    | inl granted ↦ rw granted (inl (ground arith, refl))
    | inr due ↦ rw due (
        inr (
          ground arith,
          Returns->>= (λ s1 _. (v.last s1.interface ≡ v.last s.interface) × v.Ready s1.interface)
              (Followed v) _ _
              (Returns-ask (λ m' _. (v.last m' ≡ v.last s.interface) × v.Ready m')
                mg.reduce_total_send_receive s (a.counts s.interface ready))
              (λ s1 diff (e1, r1).
                Returns->>= {A = Unit {0}}
                  (λ s2 _. (v.last s2.interface ≡ v.last s1.interface) × v.Ready s2.interface)
                  (Followed v)
                  ((if ltb 0 diff then ask (mg.packet_lost_calculator current) else pure tt) s1) _
                  (lost diff current s1 r1)
                  (λ s2 _ (e2, r2).
                    Returns->>=
                      (λ s3 _. (v.last s3.interface ≡ v.last s2.interface) × v.Due s3.interface)
                      (Followed v) _ _
                      (Returns-ask (λ m' _. (v.last m' ≡ v.last s2.interface) × v.Due m')
                        mg.reduce_network_delay s2 (a.delays s2.interface r2))
                      (λ s3 _ (e3, due).
                        Returns->>=
                          (λ s4 r.
                            (v.last s4.interface ≡ r)
                            × (r ≤ infinity)
                            × ((r ≡ 0) ⊎ (v.last s3.interface < r))
                            × v.Ready s4.interface)
                          (Followed v) (ask (mg.reduce_min_time infinity) s3) (take_answer mg)
                          (Returns-ask
                            (λ m' r.
                              (v.last m' ≡ r)
                              × (r ≤ infinity)
                              × ((r ≡ 0) ⊎ (v.last s3.interface < r))
                              × v.Ready m')
                            (mg.reduce_min_time infinity) s3
                            (a.answers infinity s3.interface due
                              (omega (arith, early, e1, e2, e3))))
                          (λ s4 r h. take_answer-Followed r s4 (h.0) (h.1))))),
        ))
  ]
