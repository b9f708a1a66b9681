-- ===== src/Post/Cleanup.antt =====
-- services/post/service/post.go: `CleanupDeletedPosts`.
use social_ai_backend.Common.{
  ℕ, zero, suc, ◌+◌, Bool, true, false, Option, none, some, List, [], leb, if◌then◌else◌, Text, ok,
  err, ◌>>◌,
}
use social_ai_backend.Transaction.{Weather, db_call, in_tx}
use social_ai_backend.Post.Tables.{
  Db, PostRow, waiting, completed, failed, next_cleanup, update_post,
}
use social_ai_backend.Post.Counts.{Error, db_error}
use social_ai_backend.Post.Create.{Result, State, Clients, delete_media}

abbrev pub clean_completed : PostRow → PostRow
clean_completed p = record p { cleanup_status = completed; cleanup_error = [] }

-- A failed removal, after `attempts` of them.
abbrev pub clean_failed : ℕ → Text → PostRow → PostRow
clean_failed attempts reason p = record p {
  cleanup_status = if leb 5 (attempts + 1) then failed else waiting;
  cleanup_attempts = p.cleanup_attempts + 1;
  cleanup_error = reason;
}

-- The row's update, when the object store removed the object or not.
abbrev pub cleaned : Bool → Text → PostRow → Db → Db
cleaned true reason row db = record db { posts = update_post row.post_id clean_completed db.posts }
cleaned false reason row db = record db {
  posts = update_post row.post_id (clean_failed row.cleanup_attempts reason) db.posts;
}

-- A round's transaction once its row was read; its result is whether a row was claimed.
unfoldable pub clean_tx : Weather → Bool → Text → Option PostRow → Db → Result (Db × Bool)
clean_tx w removed reason none db = do db_call db_error w 2; ok (db, false)
clean_tx w removed reason (some row) db = do
  db_call db_error w 2
  db_call db_error w 3
  ok (cleaned removed reason row db, true)

-- The objects after a round: the claimed row's object is removed before the row is updated.
unfoldable pub clean_media : Weather → Clients → Option PostRow → List Text → List Text × Bool
clean_media w cs none media = (media, false)
clean_media w cs (some row) media =
    if w.fails 1
    then (media, false)
    else if w.fails 2
    then (media, false)
    else delete_media cs row.post_id media

-- One round of the loop.
unfoldable pub clean_round : Weather → Clients → Text → State → State × Result Bool
unfolding clean_tx clean_media
clean_round w cs reason st =
    let row = next_cleanup st.db.posts in
    let (media, removed) = clean_media w cs row st.media in
    let (db, r) = in_tx db_error w st.db (clean_tx w removed reason row st.db) in
    (record { db = db; media = media }, r)

-- The loop with `left` rounds to go and `done` behind it. Each round has its weather, its clients and
-- the text of a failure, by the number of rounds that are left.
module _ (w : ℕ → Weather) (cs : ℕ → Clients) (reason : ℕ → Text) where
  unfoldable pub clean_rounds : ℕ → ℕ → State → State × ℕ × Option Error
  unfolding clean_round
  clean_rounds zero done st = (st, done, none)
  clean_rounds (suc left) done st =
      let after = clean_round (w left) (cs left) (reason left) st in
      elim after.1 [
        | err e ↦ (after.0, done, some e)
        | ok claimed ↦ elim claimed [
          | false ↦ (after.0, done, none)
          | true ↦ clean_rounds left (done + 1) after.0
        ]
      ]

  -- The number of posts that were processed, and the error.
  unfoldable pub cleanup_deleted_posts : ℕ → State → State × ℕ × Option Error
  unfolding clean_rounds
  cleanup_deleted_posts limit st = clean_rounds limit 0 st
