-- ===== src/Post/Counts.antt =====
-- services/post/service/post.go and store.go: `bumpCounter` and `pgCounterSink`.
use social_ai_backend.Common.{Option, none, some, Text, Attempt, ok}
use social_ai_backend.Common.Int.{ℤ}
use social_ai_backend.Transaction.{Weather, exec}
use social_ai_backend.Counter.{Store, IncrError, not_recorded, unscheduled, incr}
use social_ai_backend.Post.Tables.{Db, CountColumn, column_of, add_to, update_post}

-- The package's errors, `ErrBadCursor` among them, those of its clients, each with one constructor, and
-- `db_error` for any error of the database.
pub data Error : Type 0 where
  post_not_found already_liked not_liked comment_not_found invalid_comment not_post_owner : Error
  bad_cursor : Error
  redis_error search_error gcs_error openai_error db_error : Error

abbrev pub add_count : Text → CountColumn → ℤ → Db → Db × Unit {0}
add_count id col n db = (record db { posts = update_post id (add_to col n) db.posts }, tt)

-- `pgCounterSink.Add`, the call with number 10 of its request.
unfoldable pub sink_add :
    Weather → Text → Option CountColumn → ℤ → Db → Db × Attempt Error (Unit {0})
sink_add w id none n db = (db, ok tt)
sink_add w id (some col) n db = exec db_error w 10 (add_count id col n) db

module _ {S : Type 0} (store : Store S) (prefix : Text) where
  -- What follows `Counters.Incr`.
  unfoldable pub bumped :
      Weather → Text → Text → ℤ → S → Db → Option IncrError → (S × Db) × Attempt Error (Unit {0})
  unfolding sink_add
  bumped w id field n s db none = ((s, db), ok tt)
  bumped w id field n s db (some unscheduled) = ((s, db), ok tt)
  bumped w id field n s db (some not_recorded) =
      let (db', r) = sink_add w id (column_of field) n db in ((s, db'), r)

  -- The counters in Redis and the tables after the change of a count.
  unfoldable pub bump_counter :
      Weather → Text → Text → ℤ → S → Db → (S × Db) × Attempt Error (Unit {0})
  unfolding bumped
  bump_counter w id field n s db =
      let (s', e) = incr store prefix id field n s in bumped w id field n s' db e
