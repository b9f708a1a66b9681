-- ===== src/Consumer/Run/Order.antt =====
-- The order in which `Run` (shared/consumer/consumer.go) has messages processed.
use social_ai_backend.Common.{
  ℕ, ◌≤◌, ◌<◌, ◌≡◌, refl, sym, ap, subst, ◌∙◌, inl, inr, some, List, [], ◌∷◌, ◌++◌, append_assoc,
  append-nil, arith, ◌==◌, ==_iff, Bool-cases, keep, keep-append, length, length-append, Text,
}
use social_ai_backend.Consumer.Config.{Message, Settings}
use social_ai_backend.Consumer.Run.{
  Loop, put_at, initial, worker_of, Step, fetches, sends, takes, finishes, abandons, commits,
  cancels, Reach, start, next,
}

module _ (hash : Text → ℕ) (cfg : Settings) where
  -- What was sent to a worker, it took or still has, in this order.
  pub record IsOrdered (x : Loop) : Type 0 where
    pub fifo : (i : ℕ) → x.started i ++ x.queues i ≡ keep (λ m. worker_of hash cfg m == i) x.sent
    pub all_fetched : x.fetched ≡ x.sent ++ x.in_hand
    pub bounded : (i : ℕ) → length (x.queues i) ≤ cfg.queue_size

  sent-IsOrdered :
      (x : Loop) (m : Message)
      → x.in_hand ≡ m ∷ []
      → length (x.queues (worker_of hash cfg m)) < cfg.queue_size
      → IsOrdered x
      → IsOrdered (record x {
        sent = x.sent ++ m ∷ [];
        in_hand = [];
        queues = put_at (worker_of hash cfg m) (x.queues (worker_of hash cfg m) ++ m ∷ []) x.queues;
      })
  sent-IsOrdered x m held room v = record {
    fifo = λ i.
        let sent_on = keep-append (λ n. worker_of hash cfg n == i) x.sent (m ∷ []) in
        elim (Bool-cases (worker_of hash cfg m == i)) [
          | inl e ↦
              let same : worker_of hash cfg m ≡ i = (==_iff _ i).0 e in
              rw (sent_on, e)
                (ap (λ (j : ℕ). x.started i ++ (x.queues j ++ m ∷ [])) same
                  ∙ sym (append_assoc (x.started i) (x.queues i) (m ∷ []))
                  ∙ ap (λ (ms : List Message). ms ++ m ∷ []) (v.fifo i))
          | inr e ↦ rw (sent_on, e) (v.fifo i ∙ sym (append-nil _))
        ];
    all_fetched = v.all_fetched ∙ ap (◌++◌ x.sent) held ∙ sym (append-nil (x.sent ++ m ∷ []));
    bounded = λ i. elim (Bool-cases (worker_of hash cfg m == i)) [
      | inl e ↦ rw e (omega (arith, room, length-append (x.queues (worker_of hash cfg m)) (m ∷ [])))
      | inr e ↦ rw e (v.bounded i)
    ];
  }

  taken-IsOrdered :
      (x : Loop) (j : ℕ) (m : Message) (ms : List Message)
      → x.queues j ≡ m ∷ ms
      → IsOrdered x
      → IsOrdered (record x {
        queues = put_at j ms x.queues;
        started = put_at j (x.started j ++ m ∷ []) x.started;
        working = put_at j (some m) x.working;
      })
  taken-IsOrdered x j m ms queue v = record {
    fifo = λ i. elim (Bool-cases (j == i)) [
      | inl e ↦
          let same : j ≡ i = (==_iff j i).0 e in
          rw e (
            append_assoc (x.started j) (m ∷ []) ms
            ∙ ap (◌++◌ (x.started j)) (sym queue)
            ∙ subst (λ k. x.started j ++ x.queues j ≡ keep (λ n. worker_of hash cfg n == k) x.sent)
                same (v.fifo j))
      | inr e ↦ rw e (v.fifo i)
    ];
    all_fetched = v.all_fetched;
    bounded = λ i. elim (Bool-cases (j == i)) [
      | inl e ↦ rw e (omega (arith, v.bounded j, ap length queue))
      | inr e ↦ rw e (v.bounded i)
    ];
  }

  -- Nothing that the invariant speaks of changes.
  same-IsOrdered :
      (x y : Loop)
      → y.sent ≡ x.sent
      → y.fetched ≡ x.fetched
      → y.in_hand ≡ x.in_hand
      → y.queues ≡ x.queues
      → y.started ≡ x.started
      → IsOrdered x
      → IsOrdered y
  same-IsOrdered x y a b c d e v = record {
    fifo = λ i. rw (a, d, e) (v.fifo i);
    all_fetched = rw (a, b, c) v.all_fetched;
    bounded = λ i. rw d (v.bounded i);
  }

  Step-IsOrdered : {x y : Loop} → Step hash cfg x y → IsOrdered x → IsOrdered y
  Step-IsOrdered {x} (fetches m empty follows) v = record {
    fifo = v.fifo;
    all_fetched =
        ap (λ (ms : List Message). ms ++ m ∷ [])
          (v.all_fetched ∙ ap (◌++◌ x.sent) empty ∙ append-nil x.sent);
    bounded = v.bounded;
  }
  Step-IsOrdered {x} (sends m held room) v = sent-IsOrdered x m held room v
  Step-IsOrdered {x} (takes j m ms queue idle) v = taken-IsOrdered x j m ms queue v
  Step-IsOrdered {x} {y} (finishes i m busy) v = same-IsOrdered x y refl refl refl refl refl v
  Step-IsOrdered {x} {y} (abandons i m busy stop) v = same-IsOrdered x y refl refl refl refl refl v
  Step-IsOrdered {x} {y} (commits refuses) v = same-IsOrdered x y refl refl refl refl refl v
  Step-IsOrdered {x} {y} cancels v = same-IsOrdered x y refl refl refl refl refl v

  initial-IsOrdered : IsOrdered initial
  initial-IsOrdered = record { fifo = λ i. refl; all_fetched = refl; bounded = λ i. omega arith }

  -- Whatever the workers, the committer and the source do when, a worker is given the messages that are
  -- routed to it in the order in which the source delivered them, one after the other and none left out:
  -- what it took, followed by what waits in its queue, are the messages of its keys among those sent, and
  -- these are the first of those fetched, all but the one that the loop still holds. No queue holds more
  -- than `QueueSize` messages.
  pub run_in_order :
      {x : Loop}
      → Reach hash cfg x
      → ((i : ℕ) → x.started i ++ x.queues i ≡ keep (λ m. worker_of hash cfg m == i) x.sent)
        × (x.fetched ≡ x.sent ++ x.in_hand)
        × ((i : ℕ) → length (x.queues i) ≤ cfg.queue_size)
  run_in_order r = let v = ordered r in (v.fifo, v.all_fetched, v.bounded)
    where
      step : {x y : Loop} → Step hash cfg x y → IsOrdered x → IsOrdered y
      step = Step-IsOrdered

      ordered : {x : Loop} → Reach hash cfg x → IsOrdered x
      ordered start = initial-IsOrdered
      ordered (next r st) = step st (ordered r)
