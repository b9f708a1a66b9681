-- ===== src/Consumer/Config.antt =====
-- shared/consumer/consumer.go: messages, the configuration and its defaults.
use social_ai_backend.Common.{ℕ, ◌*◌, Text}
use social_ai_backend.Common.Int.{ℤ, or_default}

-- A broker-neutral record. Keys and values are bytes.
pub record Message : Type 0 where
  pub topic : Text
  pub partition : ℕ
  pub offset : ℤ
  pub key : Text
  pub value : Text

-- The configuration as given; a number that is not positive is unset. Durations count nanoseconds.
pub record Config : Type 0 where
  pub workers : ℤ
  pub queue_size : ℤ
  pub max_attempts : ℤ
  pub base_backoff : ℤ
  pub max_backoff : ℤ
  pub dlq_topic : Text
  pub commit_interval : ℤ

-- The configuration with every unset number filled in.
pub record Settings : Type 0 where
  pub workers : ℕ
  pub queue_size : ℕ
  pub max_attempts : ℕ
  pub base_backoff : ℕ
  pub max_backoff : ℕ
  pub dlq_topic : Text
  pub commit_interval : ℕ

abbrev pub millisecond : ℕ
millisecond = 1000000

abbrev pub second : ℕ
second = 1000000000

unfoldable pub with_defaults : Config → Settings
with_defaults c = record {
  workers = or_default c.workers 8;
  queue_size = or_default c.queue_size 64;
  max_attempts = or_default c.max_attempts 5;
  base_backoff = or_default c.base_backoff (200 * millisecond);
  max_backoff = or_default c.max_backoff (10 * second);
  dlq_topic = c.dlq_topic;
  commit_interval = or_default c.commit_interval second;
}
