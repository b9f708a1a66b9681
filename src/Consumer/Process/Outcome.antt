-- ===== src/Consumer/Process/Outcome.antt =====
-- How `process` (shared/consumer/consumer.go) ends.
use social_ai_backend.Common.{
  ℕ, zero, suc, ◌+◌, ◌-◌, ◌≤◌, ◌<◌, ◌≡◌, refl, ap, subst, ◌∙◌, ◌⊎◌, inl, inr, Bool, true, false,
  List, [], ◌∷◌, ◌++◌, Option, none, some, arith, leb, leb→le, leb→gt, Bool-cases, Option-cases, In,
  here, In-append_right, Text, is_empty,
}
use native.Mathlib.Nat.{add-zero}
use social_ai_backend.Consumer.Config.{Message, Settings}
use social_ai_backend.Consumer.Backoff.{backoff}
use social_ai_backend.Consumer.Process.{
  Environment, Effect, retried, processed, dead_lettered, counted_dead, slept, Ending, returned,
  gave_up, sleeps, attempts_from, DeadLetter, dead_letter, publish_from, verdict, conclude, process,
}

-- The handler fails at `count` attempts in a row, from the given one on.
abbrev pub AllFail : Environment → ℕ → ℕ → Type 0
AllFail env attempt zero = Unit
AllFail env attempt (suc count) =
    ((e : Text) × (env.handle attempt ≡ some e)) × AllFail env (attempt + 1) count

-- The three ways in which the first loop ends, from the given attempt on.
data Attempted (env : Environment) (cfg : Settings) (attempt : ℕ) (err : Option Text)
    : Ending → Type 0 where
  succeeds :
      (count : ℕ)
      → attempt + count ≤ cfg.max_attempts
      → AllFail env attempt count
      → env.handle (attempt + count) ≡ none
      → Attempted env cfg attempt err (returned true)
  interrupted : (n : ℕ) → env.cancelled n ≡ true → Attempted env cfg attempt err (returned false)
  exhausted :
      (count : ℕ) (last : Option Text)
      → attempt + count ≡ suc cfg.max_attempts
      → AllFail env attempt count
      → ((count ≡ 0) × (last ≡ err))
        ⊎ (0 < count) × ((e : Text) × (last ≡ some e) × (env.handle cfg.max_attempts ≡ some e))
      → Attempted env cfg attempt err (gave_up last)

-- A failed attempt before the others.
one_more :
    (env : Environment) (cfg : Settings) (attempt : ℕ) (err : Option Text) (e : Text)
    {ending : Ending}
    → env.handle attempt ≡ some e
    → Attempted env cfg (attempt + 1) (some e) ending
    → Attempted env cfg attempt err ending
one_more env cfg attempt err e failed (succeeds count le fails ok) =
    succeeds (suc count) (omega arith) ((e, failed), fails) (ap env.handle (omega arith) ∙ ok)
one_more env cfg attempt err e failed (interrupted n c) = interrupted n c
one_more env cfg attempt err e failed (exhausted count last at_end fails (inl (none_left, same))) =
    exhausted (suc count) last (omega arith) ((e, failed), fails)
      (inr (omega arith, (e, same, ap env.handle (omega arith) ∙ failed)))
one_more env cfg attempt err e failed (exhausted count last at_end fails (inr (some_left, known))) =
    exhausted (suc count) last (omega arith) ((e, failed), fails) (inr (omega arith, known))

attempts_from_ends :
    (rounds : ℕ) (env : Environment) (cfg : Settings) (attempt : ℕ) (err : Option Text)
    (log : List Effect)
    → is_empty cfg.dlq_topic ≡ false
    → attempt ≤ suc cfg.max_attempts
    → cfg.max_attempts + 1 < attempt + rounds
    → (r : Ending × List Effect) × (attempts_from rounds env cfg attempt err log ≡ some r)
      × Attempted env cfg attempt err r.0
unfolding attempts_from
attempts_from_ends zero env cfg attempt err log dlq low enough = absurd (omega arith)
attempts_from_ends (suc rounds) env cfg attempt err log dlq low enough =
    elim (Bool-cases (leb attempt cfg.max_attempts)) [
      | inl more ↦ elim (Bool-cases (env.cancelled attempt)) [
        | inl stop ↦ ((returned false, log), rw (more, stop) refl, interrupted attempt stop)
        | inr going ↦ elim (Option-cases (env.handle attempt)) [
          | inl ok ↦ (
            (returned true, log ++ processed ∷ []),
            rw (more, going, ok) refl,
            succeeds 0 (omega (arith, leb→le attempt cfg.max_attempts more)) tt
                (ap env.handle (add-zero attempt) ∙ ok),
          )
          | inr (e, failed) ↦
              let (r, ran, ending) =
                attempts_from_ends rounds env cfg (attempt + 1) (some e)
                  (log ++ retried ∷ sleeps cfg attempt) dlq
                  (omega (arith, leb→le attempt cfg.max_attempts more)) (omega arith) in
              (r, rw (more, going, failed) ran, one_more env cfg attempt err e failed ending)
        ]
      ]
      | inr over ↦ (
        (gave_up err, log),
        rw (over, dlq) refl,
        exhausted 0 err (omega (arith, leb→gt attempt cfg.max_attempts over)) tt (inl (refl, refl)),
      )
    ]

-- What the end of the dead-letter loop means.
abbrev PublishEnd : Environment → DeadLetter → Bool → List Effect → Type 0
PublishEnd env dl b log =
    ((b ≡ true) × In (dead_lettered dl) log) ⊎ ((b ≡ false) × ((n : ℕ) × (env.stopped n ≡ true)))

-- The dead-letter loop ends once the publisher takes the letter, `k` attempts on.
publish_from_ends :
    (k rounds : ℕ) (env : Environment) (cfg : Settings) (dl : DeadLetter) (attempt : ℕ)
    (log : List Effect)
    → k < rounds
    → env.publish (attempt + k) ≡ none
    → (b : Bool) × (log' : List Effect) × (publish_from rounds env cfg dl attempt log
        ≡ some (b, log'))
      × PublishEnd env dl b log'
unfolding publish_from
publish_from_ends k zero env cfg dl attempt log h taken = absurd (omega arith)
publish_from_ends k (suc rounds) env cfg dl attempt log h taken =
    elim (Bool-cases (env.stopped attempt)) [
      | inl stop ↦ (false, log, rw stop refl, inr (refl, (attempt, stop)))
      | inr going ↦ elim (Option-cases (env.publish attempt)) [
        | inl ok ↦ (
          true,
          log ++ dead_lettered dl ∷ counted_dead ∷ [],
          rw (going, ok) refl,
          inl (refl, In-append_right log here),
        )
        | inr (e, failed) ↦
            let (positive, next) = not_yet k attempt e taken failed in
            let (b, log', ran, ending) =
              publish_from_ends (k - 1) rounds env cfg dl (attempt + 1)
                (log ++ slept (backoff cfg attempt) ∷ []) (omega arith) next in
            (b, log', rw (going, failed) ran, ending)
      ]
    ]
  where
    not_yet :
        (j n : ℕ) (e : Text)
        → env.publish (n + j) ≡ none
        → env.publish n ≡ some e
        → (0 < j) × (env.publish (n + 1 + (j - 1)) ≡ none)
    not_yet zero n e t f = absurd (ground (arith, t, f, ap env.publish (add-zero n)))
    not_yet (suc j) n e t f = (omega arith, ap env.publish (omega arith) ∙ t)

-- The handler succeeds at one of the allowed attempts, after failing at all earlier ones.
abbrev pub Handled : Environment → Settings → Type 0
Handled env cfg =
    (count : ℕ) × (count < cfg.max_attempts) × AllFail env 1 count × (env.handle (1 + count) ≡ none)

-- The handler fails at every allowed attempt, and the dead letter, which has the message and the
-- last error, is on its topic.
abbrev pub Buried : Environment → Settings → Message → List Effect → Type 0
Buried env cfg m log =
    AllFail env 1 cfg.max_attempts
    × ((e : Text) × (env.handle cfg.max_attempts ≡ some e)
        × In (dead_lettered (dead_letter env cfg m e)) log)

-- A check of the context found it cancelled.
abbrev pub Interrupted : Environment → Type 0
Interrupted env = (n : ℕ) × ((env.cancelled n ≡ true) ⊎ (env.stopped n ≡ true))

-- What `process` returns, and why.
abbrev pub Explained : Environment → Settings → Message → Bool → List Effect → Type 0
Explained env cfg m b log =
    ((b ≡ true) × (Handled env cfg ⊎ Buried env cfg m log)) ⊎ ((b ≡ false) × Interrupted env)

conclude_ends :
    (env : Environment) (cfg : Settings) (m : Message) (p : ℕ) (ending : Ending) (log : List Effect)
    → 0 < cfg.max_attempts
    → 0 < p
    → env.publish p ≡ none
    → Attempted env cfg 1 none ending
    → (b : Bool) × (log' : List Effect) × (conclude
          (suc (cfg.max_attempts + p))
          env
          cfg
          m
          (some (ending, log))
        ≡ some (verdict b, log'))
      × Explained env cfg m b log'
unfolding conclude
conclude_ends env cfg m p ending log h positive taken (succeeds count le fails ok) =
    (true, log, refl, inl (refl, inl (count, omega arith, fails, ok)))
conclude_ends env cfg m p ending log h positive taken (interrupted n c) =
    (false, log, refl, inr (refl, (n, inl c)))
conclude_ends env cfg m p ending log h positive taken
      (exhausted count last at_end fails (inl (none_left, same))) =
    absurd (omega arith)
conclude_ends env cfg m p ending log h positive taken
      (exhausted count last at_end fails (inr (some_left, (e, known, failed)))) =
    let (b, log', ran, how) =
      publish_from_ends (p - 1) (suc (cfg.max_attempts + p)) env cfg (dead_letter env cfg m e) 1 log
        (omega arith) (ap env.publish (omega arith) ∙ taken) in
    (b, log', rw (known) (rw ran refl), explain how)
  where
    explain :
        {b : Bool} {log' : List Effect}
        → PublishEnd env (dead_letter env cfg m e) b log'
        → Explained env cfg m b log'
    explain (inl (yes_b, there_it_is)) =
        inl (yes_b, inr (subst (AllFail env 1) (omega arith) fails, (e, failed, there_it_is)))
    explain (inr (no_b, (n, stop))) = inr (no_b, (n, inr stop))

-- With a dead-letter topic and at least one attempt, if the dead-letter publisher would accept at
-- its p-th attempt, `process` returns within max_attempts + p + 1 rounds of each loop. It returns
-- true if the handler succeeded within the allowed attempts, or failed at all of them and the dead
-- letter was published; it returns false only if the context was cancelled.
pub process_ends :
    (env : Environment) (cfg : Settings) (m : Message) (p : ℕ)
    → is_empty cfg.dlq_topic ≡ false
    → 0 < cfg.max_attempts
    → 0 < p
    → env.publish p ≡ none
    → (b : Bool) × (log : List Effect) × (process (suc (cfg.max_attempts + p)) env cfg m
        ≡ some (verdict b, log))
      × Explained env cfg m b log
unfolding process
process_ends env cfg m p dlq some_attempt some_publish taken =
    let (r, ran, how) =
      attempts_from_ends (suc (cfg.max_attempts + p)) env cfg 1 none [] dlq (omega arith)
        (omega arith) in
    rw ran (conclude_ends env cfg m p r.0 r.1 some_attempt some_publish taken how)
