-- ===== src/Consumer/Process.antt =====
-- shared/consumer/consumer.go: `process`, the handling of one message with retries and the
-- dead-letter topic. What the world answers is the `Environment`: the results of `ctx.Err`, of the
-- handler and of the dead-letter publisher, by the number of the attempt that asks.
pub mod Outcome
use social_ai_backend.Common.{
  ℕ, zero, suc, ◌+◌, ◌≡◌, Bool, true, false, ◌||◌, List, [], ◌∷◌, ◌++◌, Option, none, some, ltb,
  leb, if◌then◌else◌, Text, is_empty,
}
use mathlib.Core.Option
use social_ai_backend.Common.Int.{ℤ}
use social_ai_backend.Consumer.Config.{Message, Settings}
use social_ai_backend.Consumer.Backoff.{backoff}

-- What lands on the dead-letter topic.
pub record DeadLetter : Type 0 where
  pub original_topic : Text
  pub partition : ℕ
  pub offset : ℤ
  pub key : Text
  pub value : Text
  pub error : Text
  pub attempts : ℕ
  pub failed_at : ℕ

-- `cancelled` and `stopped` are `ctx.Err() != nil` at the head of the two loops; `handle` is the
-- handler's error, if any; `publish` is the dead-letter publisher's; `now` is the clock.
pub record Environment : Type 0 where
  pub cancelled : ℕ → Bool
  pub handle : ℕ → Option Text
  pub stopped : ℕ → Bool
  pub publish : ℕ → Option Text
  pub now : ℕ

-- What `process` does besides returning: metrics, sleeps and the dead letter.
pub data Effect : Type 0 where
  processed retried counted_dead : Effect
  slept : ℕ → Effect
  dead_lettered : DeadLetter → Effect

-- How the first loop ends: with `process`'s result, or by its condition, with the last error.
pub data Ending : Type 0 where
  returned : Bool → Ending
  gave_up : Option Text → Ending

-- The condition of the first loop, and of its sleep.
abbrev pub tries_again : Settings → ℕ → Bool
tries_again cfg attempt = leb attempt cfg.max_attempts || is_empty cfg.dlq_topic

abbrev pub sleeps : Settings → ℕ → List Effect
sleeps cfg attempt =
    if ltb attempt cfg.max_attempts || is_empty cfg.dlq_topic
    then slept (backoff cfg attempt) ∷ []
    else []

-- The first loop, from the given attempt, with the last error and the effects so far. `none` means
-- that the rounds given ran out.
unfoldable pub attempts_from :
    ℕ → Environment → Settings → ℕ → Option Text → List Effect → Option (Ending × List Effect)
attempts_from zero env cfg attempt err log = none
attempts_from (suc rounds) env cfg attempt err log =
    let body : Option (Ending × List Effect) = elim (env.handle attempt) [
      | none ↦ some (returned true, log ++ processed ∷ [])
      | some e ↦
          attempts_from rounds env cfg (attempt + 1) (some e) (log ++ retried ∷ sleeps cfg attempt)
    ] in
    if tries_again cfg attempt
    then if env.cancelled attempt then some (returned false, log) else body
    else some (gave_up err, log)

abbrev pub dead_letter : Environment → Settings → Message → Text → DeadLetter
dead_letter env cfg m err = record {
  original_topic = m.topic;
  partition = m.partition;
  offset = m.offset;
  key = m.key;
  value = m.value;
  error = err;
  attempts = cfg.max_attempts;
  failed_at = env.now;
}

-- The second loop, which publishes the dead letter until the publisher takes it.
unfoldable pub publish_from :
    ℕ → Environment → Settings → DeadLetter → ℕ → List Effect → Option (Bool × List Effect)
publish_from zero env cfg dl attempt log = none
publish_from (suc rounds) env cfg dl attempt log =
    let body : Option (Bool × List Effect) = elim (env.publish attempt) [
      | none ↦ some (true, log ++ dead_lettered dl ∷ counted_dead ∷ [])
      | some e ↦
          publish_from rounds env cfg dl (attempt + 1) (log ++ slept (backoff cfg attempt) ∷ [])
    ] in
    if env.stopped attempt then some (false, log) else body

-- `process` returns, or would call `Error` on a nil error.
pub data Verdict : Type 0 where
  verdict : Bool → Verdict
  nil_error : Verdict

abbrev pub to_verdict : Bool × List Effect → Verdict × List Effect
to_verdict (b, log) = (verdict b, log)

-- What follows the first loop.
unfoldable pub conclude :
    ℕ
    → Environment
    → Settings
    → Message
    → Option (Ending × List Effect)
    → Option (Verdict × List Effect)
conclude rounds env cfg m none = none
conclude rounds env cfg m (some (returned b, log)) = some (verdict b, log)
conclude rounds env cfg m (some (gave_up none, log)) = some (nil_error, log)
conclude rounds env cfg m (some (gave_up (some e), log)) =
    Option.map to_verdict (publish_from rounds env cfg (dead_letter env cfg m e) 1 log)

unfoldable pub process : ℕ → Environment → Settings → Message → Option (Verdict × List Effect)
process rounds env cfg m = conclude rounds env cfg m (attempts_from rounds env cfg 1 none [])
