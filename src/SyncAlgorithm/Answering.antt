-- ===== src/SyncAlgorithm/Answering.antt =====
-- syncalgorithms/abssyncalgorithm.h: what the algorithms rely on of the answers that a round of the
-- federation gives, and the calls of the manager that they get them by.
use fncs.Base.{ℕ, ◌≤◌, ◌<◌, ◌≡◌, refl, ◌⊎◌, Result, ok, throws, assert_fails, undefined}
use fncs.Base.Actions.{Action, Returns, Returns-imp}
use fncs.SyncAlgorithm.{Manager, Sync, ask}

-- What is seen of a manager between two calls: the last answer of a least time, whether a round may begin,
-- and whether the network delay has been asked for in this round and the least time has not. Both are
-- reductions of a least time on the network interface, so that only their turn tells them apart.
pub record View (M : Type 0) : Type 1 where
  pub last : M → ℕ
  pub Ready : M → Type 0
  pub Due : M → Type 0

-- A call that gives no answer to a proposal
abbrev pub Unanswered : {M A : Type 0} → (v : View M) → (P Q : M → Type 0) → Action M A → Type 0
Unanswered {M} v P Q f = (m : M) → P m → Returns (λ m' _. (v.last m' ≡ v.last m) × Q m') (f m)

-- The calls come back. The answer is never later than what the simulator proposed, and it is later than
-- the answer before, unless it is zero: this is how the end of the simulation is told.
pub record Answers {M : Type 0} (mg : Manager M) (v : View M) : Type 0 where
  pub sends : Unanswered v v.Ready v.Ready mg.send_all
  pub waits : Unanswered v v.Ready v.Ready mg.waitfor_all
  pub counts : Unanswered v v.Ready v.Ready mg.reduce_total_send_receive
  pub delays : Unanswered v v.Ready v.Due mg.reduce_network_delay
  pub answers :
      (est : ℕ) (m : M)
      → v.Due m
      → v.last m < est
      → Returns
          (λ m' r. (v.last m' ≡ r) × (r ≤ est) × ((r ≡ 0) ⊎ (v.last m < r)) × v.Ready m')
          (mg.reduce_min_time est m)

module _ {M A : Type 0} where
  asked : Sync M → M × Result A → Sync M × Result A
  asked s r = (record s { interface = r.0 }, r.1)

  Returns-asked :
      (Q : M → A → Type 0) (s : Sync M) (r : M × Result A)
      → Returns Q r
      → Returns (λ s' a. Q s'.interface a × (s'.granted_time ≡ s.granted_time)) (asked s r)
  unfolding asked
  Returns-asked Q s (m, ok a) h = (h, refl)
  Returns-asked Q s (m, throws e) h = elim h [ ]
  Returns-asked Q s (m, assert_fails) h = elim h [ ]
  Returns-asked Q s (m, undefined) h = elim h [ ]

  -- Such a call does not touch the granted time.
  pub Returns-ask_granted :
      (Q : M → A → Type 0) (f : Action M A) (s : Sync M)
      → Returns Q (f s.interface)
      → Returns (λ s' a. Q s'.interface a × (s'.granted_time ≡ s.granted_time)) (ask f s)
  unfolding asked
  Returns-ask_granted Q f s h = Returns-asked Q s (f s.interface) h

  -- A call of the manager leaves the algorithm in a state whose manager is as the call left it.
  pub Returns-ask :
      (Q : M → A → Type 0) (f : Action M A) (s : Sync M)
      → Returns Q (f s.interface)
      → Returns (λ s' a. Q s'.interface a) (ask f s)
  Returns-ask Q f s h =
      Returns-imp (λ s' a. Q s'.interface a × (s'.granted_time ≡ s.granted_time))
        (λ s' a. Q s'.interface a) (ask f s) (Returns-ask_granted Q f s h) (λ s' a q. q.0)
