-- ===== src/Feed/Store.antt =====
-- shared/backend/redis.go: `FeedItems`, the read of a home feed from Redis. Redis is a parameter.
pub mod Window
use social_ai_backend.Common.{
  ℕ, ◌+◌, Option, none, some, List, ltb, if◌then◌else◌, length, take, Text,
}
use social_ai_backend.Feed.Merge.{Item, Cursor, is_set, before}

-- What a command of Redis answers: an error, that there is no such key (`redis.Nil`), or a value.
pub data Reply {ℓ} (A : Type ℓ) : Type ℓ where
  down missing : Reply A
  got : A → Reply A

infixl 5 ◌>>=◌
abbrev pub ◌>>=◌ {ℓ κ} : {A : Type ℓ} {B : Type κ} → Reply A → (A → Reply B) → Reply B
down >>= next = down
missing >>= next = missing
got a >>= next = next a

-- The commands that reading a home feed sends. A member of a sorted set with its score is an entry
-- without an author. `z_range key max n` is `ZRANGE key max -inf BYSCORE REV LIMIT 0 n`, with `+inf` as
-- `none`.
pub record FeedRedis : Type 0 where
  pub z_count : Text → ℕ → ℕ → Reply ℕ
  pub z_range : Text → Option ℕ → ℕ → Reply (List Item)
  pub s_members : Text → Reply (List Text)

-- The entries that are read: after the cursor, and no more than `count`.
unfoldable pub clip : Cursor → ℕ → List Item → List Item
clip after count zs =
    let items = before zs after in if ltb count (length items) then take count items else items

-- The variables `max` and `extra`.
unfoldable pub max_score : Cursor → Option ℕ
max_score after = if is_set after then some after.t else none

unfoldable pub ties_at : FeedRedis → Text → Cursor → Reply ℕ
ties_at redis key after = if is_set after then redis.z_count key after.t after.t else got 0

unfoldable pub feed_items : FeedRedis → Text → Cursor → ℕ → Reply (List Item)
unfolding clip max_score ties_at
feed_items redis key after count = do
  extra ← ties_at redis key after
  zs ← redis.z_range key (max_score after) (count + extra)
  got (clip after count zs)
