-- ===== src/Post/Valid.antt =====
-- The requests of services/post/service/post.go one by one, and a pass of the relay, on well-formed tables.
use social_ai_backend.Common.{
  ℕ, ◌≡◌, refl, Bool, true, false, ◌||◌, Option, none, some, List, ◌∷◌, if_both, ◌==◌, Text,
  is_empty, Ensures, after, ok, err, Aligned-weaken,
}
use social_ai_backend.Common.Int.{ℤ, pos, negsuc}
use social_ai_backend.Transaction.{Weather, db_call, in_tx, in_tx-Ensures, exec, exec_keeps}
use social_ai_backend.Counter.{Store, IncrError, not_recorded, unscheduled, incr}
use social_ai_backend.Outbox.Table.{Record}
use social_ai_backend.Outbox.Relay.{Settings, World, start, run_once}
use social_ai_backend.Outbox.Rows.{Evolves}
use social_ai_backend.Outbox.Delivery.{run_once_keeps, publish_now-Keeps}
use social_ai_backend.Post.Tables.{
  Db, PostRow, ShareRow, Payload, CountColumn, like_column, share_column, column_of, add_to,
  like_field, shared_field, insert_share, next_cleanup,
}
use social_ai_backend.Post.Counts.{
  Error, post_not_found, not_liked, db_error, add_count, sink_add, bumped, bump_counter,
}
use social_ai_backend.Post.Create.{
  Result, NewPost, State, Clients, persisted, persist_new_post, save_post, publish_after_commit,
}
use social_ai_backend.Post.Delete.{delete_tx, announced, delete_post}
use social_ai_backend.Post.Likes.{
  like_tx, like_done, like_post, unlike, counted_as, unlike_post, share_post,
}
use social_ai_backend.Post.Cleanup.{
  clean_completed, clean_failed, cleaned, clean_tx, clean_media, clean_round,
}
use social_ai_backend.Post.Invariant.{IsValid, SamePayload, outbox-IsValid, update_post-IsValid}
use social_ai_backend.Post.Growth.{persist_tx-IsValid}
use social_ai_backend.Post.Removal.{delete_tx-IsValid}
use social_ai_backend.Post.Liking.{like_tx-IsValid, unlike-IsValid, share-IsValid}

publish_after_commit-IsValid :
    (s : Settings) (net : World) (rec : Record Payload) (db : Db)
    → IsValid db
    → IsValid (publish_after_commit s net rec db)
unfolding publish_after_commit
publish_after_commit-IsValid s net rec db v = outbox-IsValid db _ v (
    Aligned-weaken (Evolves s _) SamePayload db.outbox.rows _ (λ a b m h. h.same_payload)
      (publish_now-Keeps s net rec (start s net db.outbox.rows)).0)

-- A pass of the relay on the tables.
abbrev pub relayed : Settings → World → ℕ → Db → Db
relayed s net now db = record db {
  outbox = record db.outbox { rows = (run_once s net now db.outbox.rows).0.rows };
}

pub relayed-IsValid :
    (s : Settings) (net : World) (now : ℕ) (db : Db) → IsValid db → IsValid (relayed s net now db)
relayed-IsValid s net now db v = outbox-IsValid db _ v (
    Aligned-weaken (Evolves s _) SamePayload db.outbox.rows _ (λ a b m h. h.same_payload)
      (run_once_keeps s net now db.outbox.rows))

sink_add-IsValid :
    (w : Weather) (id : Text) (col : Option CountColumn) (n : ℤ) (db : Db)
    → IsValid db
    → IsValid (sink_add w id col n db).0
unfolding sink_add
sink_add-IsValid w id none n db v = v
sink_add-IsValid w id (some col) n db v =
    exec_keeps db_error IsValid w 10 (add_count id col n) db v
      (update_post-IsValid id (add_to col n) db (same_id col) (same_time col) v)
  where
    same_id : (c : CountColumn) (p : PostRow) → (add_to c n p).post_id ≡ p.post_id
    same_id like_column p = refl
    same_id share_column p = refl

    same_time : (c : CountColumn) (p : PostRow) → (add_to c n p).deleted_at ≡ p.deleted_at
    same_time like_column p = refl
    same_time share_column p = refl

module _ (s : Settings) (w : Weather) (net : World) (cs : Clients) where
  persisted-IsValid :
      (p : NewPost) (media : List Text) (r : Db × Result (Record Payload))
      → IsValid r.0
      → IsValid (persisted s w net cs p media r).0.db
  unfolding persisted
  persisted-IsValid p media (db, err e) v = v
  persisted-IsValid p media (db, ok rec) v = publish_after_commit-IsValid s net rec db v

  pub save_post-IsValid :
      (now : ℕ) (p : NewPost) (st : State)
      → IsValid st.db
      → IsValid (save_post s w net cs now p st).0.db
  unfolding save_post persist_new_post
  save_post-IsValid now p st v =
      if_both (λ (r : State × Result (Unit {0})). IsValid r.0.db) cs.save_fails _ _ v
        (persisted-IsValid (record p { url = cs.link p.post_id }) (p.post_id ∷ st.media) _
          (in_tx-Ensures db_error IsValid w st.db _ v
            (persist_tx-IsValid w now (record p { url = cs.link p.post_id }) st.db v)))

module _ (s : Settings) (w : Weather) (net : World) where
  announced-IsValid :
      (r : Db × Result (Record Payload)) → IsValid r.0 → IsValid (announced s w net r).0
  unfolding announced
  announced-IsValid (db, err e) v = v
  announced-IsValid (db, ok rec) v = publish_after_commit-IsValid s net rec db v

  pub delete_post-IsValid :
      (now : ℕ) (id user : Text) (db : Db)
      → IsValid db
      → IsValid (delete_post s w net now id user db).0
  unfolding delete_post
  delete_post-IsValid now id user db v =
      if_both (λ (r : Db × Result Bool). IsValid r.0) (is_empty id || is_empty user) _ _ v
        (announced-IsValid (in_tx db_error w db (delete_tx w now id user db))
          (in_tx-Ensures db_error IsValid w db _ v (delete_tx-IsValid w now id user db v)))

module _ {S : Type 0} (store : Store S) (prefix : Text) where
  bumped-IsValid :
      (w : Weather) (id field : Text) (n : ℤ) (counters : S) (db : Db) (e : Option IncrError)
      → IsValid db
      → IsValid (bumped store prefix w id field n counters db e).0.1
  unfolding bumped
  bumped-IsValid w id field n counters db none v = v
  bumped-IsValid w id field n counters db (some unscheduled) v = v
  bumped-IsValid w id field n counters db (some not_recorded) v =
      sink_add-IsValid w id (column_of field) n db v

  bump_counter-IsValid :
      (w : Weather) (id field : Text) (n : ℤ) (counters : S) (db : Db)
      → IsValid db
      → IsValid (bump_counter store prefix w id field n counters db).0.1
  unfolding bump_counter
  bump_counter-IsValid w id field n counters db v =
      bumped-IsValid w id field n (incr store prefix id field n counters).0 db
        (incr store prefix id field n counters).1 v

  module _ (s : Settings) (w : Weather) (net : World) where
    like_done-IsValid :
        (id : Text) (counters : S) (r : Db × Result (Record Payload))
        → IsValid r.0
        → IsValid (like_done store prefix s w net id counters r).0.1
    unfolding like_done
    like_done-IsValid id counters (db, err e) v = v
    like_done-IsValid id counters (db, ok rec) v =
        publish_after_commit-IsValid s net rec _
          (bump_counter-IsValid w id like_field (pos 1) counters db v)

    pub like_post-IsValid :
        (now : ℕ) (id user : Text) (counters : S) (db : Db)
        → IsValid db
        → IsValid (like_post store prefix s w net now id user counters db).0.1
    unfolding like_post
    like_post-IsValid now id user counters db v =
        if_both (λ (r : (S × Db) × Result Bool). IsValid r.0.1) (is_empty id || is_empty user) _ _ v
          (like_done-IsValid id counters (in_tx db_error w db (like_tx w now id user db))
            (in_tx-Ensures db_error IsValid w db _ v (like_tx-IsValid w now id user db v)))

    counted_as-IsValid :
        (id field : Text) (n : ℤ) (e : Error) (counters : S) (r : Db × Result ℕ)
        → IsValid r.0
        → IsValid (counted_as store prefix s w net id field n e counters r).0.1
    unfolding counted_as
    counted_as-IsValid id field n e counters (db, err e') v = v
    counted_as-IsValid id field n e counters (db, ok affected) v =
        if_both (λ (r : (S × Db) × Result Bool). IsValid r.0.1) (affected == 0) _ _ v
          (bump_counter-IsValid w id field n counters db v)

    pub unlike_post-IsValid :
        (id user : Text) (counters : S) (db : Db)
        → IsValid db
        → IsValid (unlike_post store prefix s w net id user counters db).0.1
    unfolding unlike_post
    unlike_post-IsValid id user counters db v =
        counted_as-IsValid id like_field (negsuc 0) not_liked counters
          (exec db_error w 0 (unlike id user) db)
          (exec_keeps db_error IsValid w 0 (unlike id user) db v (unlike-IsValid id user db v))

    pub share_post-IsValid :
        (share : ShareRow) (counters : S) (db : Db)
        → IsValid db
        → IsValid (share_post store prefix s w net share counters db).0.1
    unfolding share_post
    share_post-IsValid share counters db v =
        if_both (λ (r : (S × Db) × Result Bool). IsValid r.0.1)
          (is_empty share.post_id || is_empty share.user_id) _ _ v
          (counted_as-IsValid share.post_id shared_field (pos 1) post_not_found counters
            (exec db_error w 0 (insert_share share) db)
            (exec_keeps db_error IsValid w 0 (insert_share share) db v (share-IsValid share db v)))

cleaned-IsValid :
    (removed : Bool) (reason : Text) (row : PostRow) (db : Db)
    → IsValid db
    → IsValid (cleaned removed reason row db)
cleaned-IsValid true reason row db v =
    update_post-IsValid row.post_id clean_completed db (λ p. refl) (λ p. refl) v
cleaned-IsValid false reason row db v =
    update_post-IsValid row.post_id (clean_failed row.cleanup_attempts reason) db (λ p. refl)
      (λ p. refl) v

clean_tx-IsValid :
    (w : Weather) (removed : Bool) (reason : Text) (row : Option PostRow) (db : Db)
    → IsValid db
    → Ensures (λ (r : Db × Bool). IsValid r.0) (clean_tx w removed reason row db)
unfolding clean_tx
clean_tx-IsValid w removed reason none db v = after _ (db_call db_error w 2) _ v
clean_tx-IsValid w removed reason (some row) db v =
    after _ (db_call db_error w 2) _
      (after _ (db_call db_error w 3) _ (cleaned-IsValid removed reason row db v))

pub clean_round-IsValid :
    (w : Weather) (cs : Clients) (reason : Text) (st : State)
    → IsValid st.db
    → IsValid (clean_round w cs reason st).0.db
unfolding clean_round
clean_round-IsValid w cs reason st v = in_tx-Ensures db_error IsValid w st.db _ v (
    clean_tx-IsValid w (clean_media w cs (next_cleanup st.db.posts) st.media).1 reason
      (next_cleanup st.db.posts) st.db v)
