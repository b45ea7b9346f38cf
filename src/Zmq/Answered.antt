-- ===== src/Zmq/Answered.antt =====
-- zmqnetworkinterface.cpp with fncsbroker.cpp: what the clients of a round of REDUCE_MIN_TIME read.
use mathlib.Core.List.{Perm, Mem}
use fncs.Base.{
  ℕ, ◌≡◌, ◌≤◌, ◌<◌, refl, ap, sym, subst, ◌∙◌, true, List, [], ◌∷◌, ◌++◌, length, Name, keys,
  values, ok, Result,
}
use fncs.Base.Actions.{Returns, resume, lift, ◌>>◌}
use fncs.Broker.{Context, Frame, done, replies, time}
use fncs.Broker.Main.{Request}
use fncs.Broker.Main
use fncs.Broker.Rounds.{reduce_min_time_handler}
use fncs.Broker.Collecting.{Distinct, run}
use fncs.Broker.Collecting.MinTime.{reduce_min_time_round}
use fncs.Zmq.{Client, request, make_progress, i_recv, poll, process_all, next_poll, next_answer}
use fncs.Zmq.Operations.{ask, as_time, reduce_min_time}
use fncs.Zmq.EndToEnd.{make_progress-quiet}

-- Registrations are finalized, no message arrives, and this frame is the broker's answer.
pub record IsAnswered (frame : Frame) (k : Client) : Type 0 where
  pub final : k.registry.registrations_are_finalized ≡ true
  pub quiet : k.polls ≡ []
  pub answered : k.answers ≡ frame ∷ []

i_recv-quiet :
    (frame : Frame) (k : Client)
    → k.polls ≡ []
    → k.answers ≡ frame ∷ []
    → i_recv k ≡ (record k { answers = []; polls = [] }, ok frame)
unfolding i_recv poll process_all
i_recv-quiet frame k quiet answered =
    ap
      (λ polls.
        resume
          (process_all ((next_poll polls).0)
            (record k { answers = (next_answer k.answers).1; polls = (next_poll polls).1 }))
          (λ _. lift ((next_answer k.answers).0)))
      quiet
    ∙ ap
        (λ frames.
          (record k { answers = (next_answer frames).1; polls = [] }, (next_answer frames).0))
        answered

-- A request that is answered at once
ask-answered :
    {A : Type 0} (r : Request) (read : Frame → Result A) (frame : Frame) (k : Client)
    → IsAnswered frame k
    → (make_progress >> ask r read) k
      ≡ (record k { requests = k.requests ++ (r ∷ []); answers = []; polls = [] }, read frame)
unfolding ask request
ask-answered r read frame k h =
    let asked : Client = record k { requests = k.requests ++ (r ∷ []) } in
    ap (λ x. resume x (λ _. ask r read)) (make_progress-quiet k h.final h.quiet)
    ∙ ap (λ x. resume x (λ f. lift (read f))) (i_recv-quiet frame asked h.quiet h.answered)

reduce_min_time-answered :
    (m t : ℕ) (k : Client)
    → m ≤ t
    → IsAnswered (time m) k
    → Returns
        (λ k' r. (r ≡ m) × (r ≤ t) × (k'.requests ≡ k.requests ++ (Main.reduce_min_time t ∷ [])))
        (reduce_min_time t k)
unfolding reduce_min_time
reduce_min_time-answered m t k le h =
    subst
      (Returns
        (λ k' r. (r ≡ m) × (r ≤ t) × (k'.requests ≡ k.requests ++ (Main.reduce_min_time t ∷ []))))
      (sym (ask-answered (Main.reduce_min_time t) as_time (time m) k h)) (refl, le, refl)

-- In a valid context in which no round is under way, as many simulators as its world has, at least
-- one, each send their time once, in any order. Then the broker sends every one of them a frame
-- with one of these times. A client that has finalized its registrations and has no message to take
-- in, and that finds this frame, comes back from reduceMinTime with it, after the one request that
-- carries its time; the answer is no later than that time.
pub reduce_min_time-round :
    (c : Context) (cs : List (Name × ℕ))
    → c.valid ≡ true
    → c.reduce_min_time ≡ []
    → Distinct (keys cs)
    → length cs ≡ c.world_size
    → 0 < c.world_size
    → (m : ℕ) × (ns : List Name) × (run reduce_min_time_handler cs c ≡ done c (replies (time m) ns))
      × Perm ns (keys cs)
      × Mem m (values cs)
      × ((t : ℕ) (k : Client)
          → Mem t (values cs)
          → IsAnswered (time m) k
          → Returns
              (λ k' r.
                (r ≡ m) × (r ≤ t) × (k'.requests ≡ k.requests ++ (Main.reduce_min_time t ∷ [])))
              (reduce_min_time t k))
reduce_min_time-round c cs valid empty distinct size some =
    let (m, ns, runs, all, (least, own)) =
      reduce_min_time_round c cs valid empty distinct size some in
    (m, ns, runs, all, own, λ t k mem h. reduce_min_time-answered m t k (least t mem) h)
