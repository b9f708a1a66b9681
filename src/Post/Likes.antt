-- ===== src/Post/Likes.antt =====
-- services/post/service/post.go: `LikePost`, `UnlikePost` and `SharePost`.
use social_ai_backend.Common.{
  ℕ, Bool, true, false, ◌||◌, ◌==◌, if◌then◌else◌, Text, is_empty, ok, err, ◌>>=◌, ◌>>◌, refuse,
  found_or, find_first,
}
use social_ai_backend.Common.Int.{ℤ, pos, negsuc}
use social_ai_backend.Transaction.{Weather, db_call, in_tx, exec}
use social_ai_backend.Counter.{Store}
use social_ai_backend.Outbox.Table.{Record}
use social_ai_backend.Outbox.Relay.{Settings, World}
use social_ai_backend.Post.Tables.{
  Db, PostRow, ShareRow, Payload, liked, is_live, insert_like, delete_like, insert_share,
  like_field, shared_field,
}
use social_ai_backend.Post.Counts.{
  Error, post_not_found, already_liked, not_liked, db_error, bump_counter,
}
use social_ai_backend.Post.Create.{Result, unix, liked_topic, record_event, publish_after_commit}

-- The like and its event, once the like was not there.
unfoldable pub like_event : ℕ → Text → Text → PostRow → Db → Db × Record Payload
like_event now id user row db =
    record_event id liked_topic id
      (liked
        (record { post_id = id; liker_id = user; owner_id = row.user_id; created_at = unix now }))
      now db

-- `postOwner`, INSERT, and the event.
unfoldable pub like_tx : Weather → ℕ → Text → Text → Db → Result (Db × Record Payload)
like_tx w now id user db = do
  db_call db_error w 2
  row ← found_or post_not_found (find_first (is_live id) db.posts)
  db_call db_error w 3
  let (likes, affected) = insert_like id user now db.likes
  refuse (affected == 0) already_liked
  db_call db_error w 4
  ok (like_event now id user row (record db { likes = likes }))

abbrev pub unlike : Text → Text → Db → Db × ℕ
unlike id user db =
    let (likes, affected) = delete_like id user db.likes in (record db { likes = likes }, affected)

module _ {S : Type 0} (store : Store S) (prefix : Text) (s : Settings) (w : Weather)
    (net : World) where
  -- What follows the transaction of `LikePost`.
  unfoldable pub like_done : Text → S → Db × Result (Record Payload) → (S × Db) × Result Bool
  like_done id counters (db, err e) = ((counters, db), err e)
  like_done id counters (db, ok rec) =
      let ((counters', db'), r) = bump_counter store prefix w id like_field (pos 1) counters db in
      ((counters', publish_after_commit s net rec db'), ok true)

  unfoldable pub like_post : ℕ → Text → Text → S → Db → (S × Db) × Result Bool
  unfolding like_done like_tx
  like_post now id user counters db =
      if is_empty id || is_empty user
      then ((counters, db), ok false)
      else like_done id counters (in_tx db_error w db (like_tx w now id user db))

  -- What follows a statement that affected some number of rows.
  unfoldable pub counted_as : Text → Text → ℤ → Error → S → Db × Result ℕ → (S × Db) × Result Bool
  counted_as id field n none_affected counters (db, err e) = ((counters, db), err e)
  counted_as id field n none_affected counters (db, ok affected) =
      if affected == 0
      then ((counters, db), err none_affected)
      else ((bump_counter store prefix w id field n counters db).0, ok true)

  -- `UnlikePost`, whose nil error is `ok true`.
  unfoldable pub unlike_post : Text → Text → S → Db → (S × Db) × Result Bool
  unfolding counted_as
  unlike_post id user counters db =
      counted_as id like_field (negsuc 0) not_liked counters (exec db_error w 0 (unlike id user) db)

  unfoldable pub share_post : ShareRow → S → Db → (S × Db) × Result Bool
  unfolding counted_as
  share_post share counters db =
      if is_empty share.post_id || is_empty share.user_id
      then ((counters, db), ok false)
      else counted_as share.post_id shared_field (pos 1) post_not_found counters
          (exec db_error w 0 (insert_share share) db)
