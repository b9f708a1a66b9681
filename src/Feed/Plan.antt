-- ===== src/Feed/Plan.antt =====
-- shared/feedplan/feedplan.go: the push/pull decision and the policy's defaults.
use social_ai_backend.Common.{ℕ, ◌*◌, ◌≤◌, ◌<◌, ◌≡◌, ◌↔◌, arith, ltb, if◌then◌else◌}
use social_ai_backend.Common.Int.{ℤ, or_default}

-- How a new post reaches followers.
pub data Mode : Type 0 where
  push pull : Mode

-- The configuration as given; a field that is not positive is unset. Durations count nanoseconds.
pub record Policy : Type 0 where
  pub celebrity_threshold : ℤ
  pub batch_size : ℤ
  pub parallelism : ℤ
  pub max_feed_len : ℤ
  pub feed_ttl : ℤ

-- The policy with every unset field filled in.
pub record Settings : Type 0 where
  pub celebrity_threshold : ℕ
  pub batch_size : ℕ
  pub parallelism : ℕ
  pub max_feed_len : ℕ
  pub feed_ttl : ℕ

abbrev pub hour : ℕ
hour = 3600000000000

unfoldable pub with_defaults : Policy → Settings
with_defaults p = record {
  celebrity_threshold = or_default p.celebrity_threshold 5000;
  batch_size = or_default p.batch_size 500;
  parallelism = or_default p.parallelism 4;
  max_feed_len = or_default p.max_feed_len 500;
  feed_ttl = or_default p.feed_ttl (7 * 24 * hour);
}

unfoldable pub decide : Policy → ℕ → Mode
unfolding with_defaults
decide p followers = if ltb (with_defaults p).celebrity_threshold followers then pull else push

-- Every setting is positive.
pub with_defaults_positive :
    (p : Policy)
    → (0 < (with_defaults p).celebrity_threshold)
      × (0 < (with_defaults p).batch_size)
      × (0 < (with_defaults p).parallelism)
      × (0 < (with_defaults p).max_feed_len)
      × (0 < (with_defaults p).feed_ttl)
unfolding with_defaults
with_defaults_positive p = ground arith

-- An author is served by pull exactly above the threshold in force, and otherwise by push.
pub decide_threshold :
    (p : Policy) (followers : ℕ)
    → ((decide p followers ≡ pull) ↔ ((with_defaults p).celebrity_threshold < followers))
      × ((decide p followers ≡ push) ↔ (followers ≤ (with_defaults p).celebrity_threshold))
unfolding decide
decide_threshold p followers = ground arith
