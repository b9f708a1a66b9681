-- ===== src/Consumer/Run/Commits.antt =====
-- What `Run` (shared/consumer/consumer.go) commits, in every reachable state.
use social_ai_backend.Common.{
  ℕ, ◌≡◌, refl, sym, subst, inl, inr, true, none, some, List, [], ◌∷◌, ◌++◌, arith, ◌==◌,
  Bool-cases, In, here, In-snoc, Text,
}
use social_ai_backend.Common.Int.{◌≤ℤ◌}
use social_ai_backend.Consumer.Config.{Message, Settings}
use social_ai_backend.Consumer.Tracker.{Position, key_eq, key_of, committable}
use social_ai_backend.Consumer.Tracker.History.{Call, replay, committable_safe}
use social_ai_backend.Consumer.Run.{
  Loop, initial, put_at, part_of, worker_of, Step, fetches, sends, takes, finishes, abandons,
  commits, cancels, Reach, start, next,
}
use social_ai_backend.Consumer.Run.Traced.{
  IsTraced, fetched-IsTraced, finished-IsTraced, moved-IsTraced, committed-IsTraced, taken_queue,
}

module _ (hash : Text → ℕ) (cfg : Settings) where
  Step-IsTraced :
      {x y : Loop} (cs : List Call)
      → Step hash cfg x y
      → IsTraced cs x
      → (cs' : List Call) × IsTraced cs' y
  Step-IsTraced {x} cs (fetches m empty follows) v = (_, fetched-IsTraced hash cfg cs x m v follows)
  Step-IsTraced {x} {y} cs (sends m held room) v =
      (cs, moved-IsTraced cs x y v refl refl refl (λ n at. elim at [ ]) sent v.busy)
    where
      sent :
          (i : ℕ) (n : Message)
          → In n
              (put_at (worker_of hash cfg m) (x.queues (worker_of hash cfg m) ++ m ∷ []) x.queues i)
          → In n x.fetched
      sent i n at = elim (Bool-cases (worker_of hash cfg m == i)) [
        | inl e ↦ elim (In-snoc (x.queues (worker_of hash cfg m)) (rw e at at)) [
          | inl old ↦ v.queued (worker_of hash cfg m) n old
          | inr is_m ↦
              v.held n (subst (In n) (sym held) (subst (λ q. In n (q ∷ [])) (sym is_m) here))
        ]
        | inr e ↦ v.queued i n (rw e at at)
      ]
  Step-IsTraced {x} {y} cs (takes j m ms queue idle) v = (
    cs,
    moved-IsTraced cs x y v refl refl refl v.held
        (λ i n at. v.queued i n (taken_queue x j m ms queue i n at)) works,
  )
    where
      works : (i : ℕ) (n : Message) → put_at j (some m) x.working i ≡ some n → In n x.fetched
      works i n at = elim (Bool-cases (j == i)) [
        | inl e ↦
            let is_m : m ≡ n = ground (arith, rw e at at) in
            v.queued j n (subst (In n) (sym queue) (subst (λ q. In n (q ∷ ms)) (sym is_m) here))
        | inr e ↦ v.busy i n (rw e at at)
      ]
  Step-IsTraced {x} cs (finishes i m at_work) v = (_, finished-IsTraced cs x i m v at_work)
  Step-IsTraced {x} {y} cs (abandons j m at_work stop) v =
      (cs, moved-IsTraced cs x y v refl refl refl v.held v.queued idle)
    where
      idle : (i : ℕ) (n : Message) → put_at j none x.working i ≡ some n → In n x.fetched
      idle i n at = elim (Bool-cases (j == i)) [
        | inl e ↦ absurd (ground (arith, rw e at at))
        | inr e ↦ v.busy i n (rw e at at)
      ]
  Step-IsTraced {x} cs (commits refuses) v = (_, committed-IsTraced cs x refuses v)
  Step-IsTraced {x} {y} cs cancels v =
      (cs, moved-IsTraced cs x y v refl refl refl v.held v.queued v.busy)

  initial-IsTraced : IsTraced [] initial
  unfolding replay
  initial-IsTraced = record {
    replayed = refl;
    proper = λ k. tt;
    tracked = λ k n at. elim at [ ];
    tracked_from = λ k o at. elim at [ ];
    finished_from = λ k o hit. cc;
    held = λ n at. elim at [ ];
    queued = λ i n at. elim at [ ];
    busy = λ i n at. cc;
    ended = λ n at. elim at [ ];
  }

  Reach-IsTraced : {x : Loop} → Reach hash cfg x → (cs : List Call) × IsTraced cs x
  Reach-IsTraced start = ([], initial-IsTraced)
  Reach-IsTraced (next r st) = let (cs, v) = Reach-IsTraced r in Step-IsTraced cs st v

  -- At least once: in every reachable state of `Run`, if the tracker would hand a position to
  -- `commit`, then each message that was fetched from its partition at this offset or below has
  -- been finished: `process` returned true for a message of that partition with the same offset.
  pub run_at_least_once :
      {x : Loop}
      → Reach hash cfg x
      → (p : Position) (m : Message) → In p (committable x.tracker).1
      → In m x.fetched
      → key_eq (key_of p) (part_of m) ≡ true
      → m.offset ≤ℤ p.offset
      → (n : Message) × In n x.finished
        × (key_eq (key_of p) (part_of n) ≡ true)
        × (n.offset ≡ m.offset)
  run_at_least_once r p m handed fetched same below =
      let (cs, v) = Reach-IsTraced r in
      v.finished_from (key_of p) m.offset (
        committable_safe cs p m.offset (v.proper (key_of p))
          (subst (λ t. In p (committable t).1) v.replayed handed)
          (v.tracked (key_of p) m fetched same) below)
