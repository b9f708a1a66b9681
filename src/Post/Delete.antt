-- ===== src/Post/Delete.antt =====
-- services/post/service/post.go: `DeletePost`.
use social_ai_backend.Common.{
  ℕ, Bool, true, false, not, ◌||◌, if◌then◌else◌, Text, text_eq, is_empty, ok, err, ◌>>=◌, ◌>>◌,
  refuse, found_or, find_first,
}
use social_ai_backend.Transaction.{Weather, db_call, in_tx}
use social_ai_backend.Outbox.Table.{Record}
use social_ai_backend.Outbox.Relay.{Settings, World}
use social_ai_backend.Post.Tables.{
  Db, PostRow, Payload, deleted, has_post_id, is_deleted, update_post, mark_deleted,
}
use social_ai_backend.Post.Counts.{post_not_found, not_post_owner, db_error}
use social_ai_backend.Post.Create.{Result, unix, deleted_topic, record_event, publish_after_commit}

-- The two writes of the transaction.
unfoldable pub remove_post : ℕ → Text → PostRow → Db → Db × Record Payload
remove_post now id row db =
    record_event id deleted_topic row.user_id
      (deleted (record { post_id = id; user_id = row.user_id; deleted_at = unix now })) now
      (record db { posts = update_post id (mark_deleted now) db.posts })

unfoldable pub delete_tx : Weather → ℕ → Text → Text → Db → Result (Db × Record Payload)
delete_tx w now id user db = do
  db_call db_error w 2
  row ← found_or post_not_found (find_first (has_post_id id) db.posts)
  refuse (is_deleted row) post_not_found
  refuse (not (text_eq row.user_id user)) not_post_owner
  db_call db_error w 3
  db_call db_error w 4
  ok (remove_post now id row db)

module _ (s : Settings) (w : Weather) (net : World) where
  -- What follows the transaction.
  unfoldable pub announced : Db × Result (Record Payload) → Db × Result Bool
  announced (db, err e) = (db, err e)
  announced (db, ok rec) = (publish_after_commit s net rec db, ok true)

  unfoldable pub delete_post : ℕ → Text → Text → Db → Db × Result Bool
  unfolding announced delete_tx
  delete_post now id user db =
      if is_empty id || is_empty user
      then (db, ok false)
      else announced (in_tx db_error w db (delete_tx w now id user db))
