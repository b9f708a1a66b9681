-- ===== src/Post/Create.antt =====
-- services/post/service/post.go: `SavePost`, `GenerateImageFromOpenAIAndSavePost`, their tail
-- `persistNewPost` and the fast path of the outbox. A request takes its time `now` once, and the
-- database's clock is taken to agree with it.
use social_ai_backend.Common.{
  ℕ, ◌+◌, ◌/◌, Bool, not, List, [], ◌∷◌, if◌then◌else◌, keep, Text, text_eq, Attempt, ok, err,
  ◌>>=◌, ◌>>◌, found_or,
}
use social_ai_backend.Transaction.{Weather, db_call, in_tx}
use social_ai_backend.Outbox.Table.{Record, enqueue}
use social_ai_backend.Outbox.Relay.{Settings, World, start, publish_now}
use social_ai_backend.Post.Tables.{
  Db, PostRow, Payload, created, PostCreatedEvent, fresh_row, insert_post,
}
use social_ai_backend.Post.Counts.{Error, gcs_error, openai_error, db_error}

abbrev pub Result {ℓ} : Type ℓ → Type ℓ
Result A = Attempt Error A

-- `fastPathGrace`, 10 seconds.
abbrev pub fast_path_grace : ℕ
fast_path_grace = 10000000000

-- `Time.Unix` of a time in nanoseconds.
abbrev pub unix : ℕ → ℕ
unix now = now / 1000000000

abbrev pub post_text : Text
post_text = b'p' ∷ b'o' ∷ b's' ∷ b't' ∷ []

-- The topics "post.created", "post.deleted" and "post.liked".
abbrev pub created_topic : Text
created_topic =
    b'p' ∷ b'o' ∷ b's' ∷ b't' ∷ b'.' ∷ b'c' ∷ b'r' ∷ b'e' ∷ b'a' ∷ b't' ∷ b'e' ∷ b'd' ∷ []

abbrev pub deleted_topic : Text
deleted_topic =
    b'p' ∷ b'o' ∷ b's' ∷ b't' ∷ b'.' ∷ b'd' ∷ b'e' ∷ b'l' ∷ b'e' ∷ b't' ∷ b'e' ∷ b'd' ∷ []

abbrev pub liked_topic : Text
liked_topic = b'p' ∷ b'o' ∷ b's' ∷ b't' ∷ b'.' ∷ b'l' ∷ b'i' ∷ b'k' ∷ b'e' ∷ b'd' ∷ []

-- `outbox.Enqueue` in a transaction of the service.
unfoldable pub record_event : Text → Text → Text → Payload → ℕ → Db → Db × Record Payload
record_event id topic key payload now db =
    let (box, rec) =
      enqueue
        (record {
          aggregate_type = post_text;
          aggregate_id = id;
          topic = topic;
          key = key;
          payload = payload;
        })
        (now + fast_path_grace) now db.outbox in
    (record db { outbox = box }, rec)

-- `publishAfterCommit`: the tables after the attempt, whose error is only logged.
unfoldable pub publish_after_commit : Settings → World → Record Payload → Db → Db
publish_after_commit s net rec db = record db {
  outbox = record db.outbox { rows = (publish_now s net rec (start s net db.outbox.rows)).0.rows };
}

-- What a request brings, with its new id, and the link that the object store gave.
pub record NewPost : Type 0 where
  pub post_id : Text
  pub user_id : Text
  pub message : Text
  pub type : Text
  pub url : Text

abbrev pub row_of : NewPost → ℕ → PostRow
row_of p now = fresh_row p.post_id p.user_id p.message p.url p.type (unix now)

abbrev pub created_event : NewPost → ℕ → PostCreatedEvent
created_event p now = record {
  post_id = p.post_id;
  user_id = p.user_id;
  message = p.message;
  url = p.url;
  type = p.type;
  created_at = unix now;
}

-- The transaction of `persistNewPost`.
unfoldable pub persist_tx : Weather → ℕ → NewPost → Db → Result (Db × Record Payload)
persist_tx w now p db = do
  db_call db_error w 2
  stored ← found_or db_error (insert_post (row_of p now) db)
  db_call db_error w 3
  ok (record_event p.post_id created_topic p.user_id (created (created_event p now)) now stored)

-- The tables and the names of the objects in the object store.
pub record State : Type 0 where
  pub db : Db
  pub media : List Text

abbrev pub without : Text → List Text → List Text
without id = keep (λ name. not (text_eq id name))

-- What the object store and OpenAI answer, and whether a call that returned an error had an effect.
pub record Clients : Type 0 where
  pub save_fails : Bool
  pub delete_fails : Bool
  pub failed_took_effect : Bool
  pub image_fails : Bool
  pub download_fails : Bool
  pub link : Text → Text

-- `DeleteFromGCS`, and whether it succeeded.
unfoldable pub delete_media : Clients → Text → List Text → List Text × Bool
delete_media cs id media =
    if cs.delete_fails
    then (if cs.failed_took_effect then without id media else media, not cs.delete_fails)
    else (without id media, not cs.delete_fails)

module _ (s : Settings) (w : Weather) (net : World) (cs : Clients) where
  -- What follows the transaction: the compensation, or the publication.
  unfoldable pub persisted :
      NewPost → List Text → Db × Result (Record Payload) → State × Result (Unit {0})
  unfolding delete_media publish_after_commit
  persisted p media (db, err e) =
      (record { db = db; media = (delete_media cs p.post_id media).0 }, err e)
  persisted p media (db, ok rec) =
      (record { db = publish_after_commit s net rec db; media = media }, ok tt)

  unfoldable pub persist_new_post : ℕ → NewPost → State → State × Result (Unit {0})
  unfolding persisted persist_tx
  persist_new_post now p st =
      persisted p st.media (in_tx db_error w st.db (persist_tx w now p st.db))

  -- `SavePost`; the field `url` of its argument is not read.
  unfoldable pub save_post : ℕ → NewPost → State → State × Result (Unit {0})
  unfolding persist_new_post
  save_post now p st =
      if cs.save_fails
      then (
        record st { media = if cs.failed_took_effect then p.post_id ∷ st.media else st.media },
        err gcs_error,
      )
      else persist_new_post now (record p { url = cs.link p.post_id })
          (record st { media = p.post_id ∷ st.media })

  -- `GenerateImageFromOpenAIAndSavePost`, whose post has the prompt as its message and type "image".
  unfoldable pub generate_post : ℕ → Text → Text → Text → State → State × Result (Unit {0})
  unfolding save_post
  generate_post now id user prompt st =
      if cs.image_fails
      then (st, err openai_error)
      else if cs.download_fails
      then (st, err openai_error)
      else save_post now
          (record {
            post_id = id;
            user_id = user;
            message = prompt;
            type = b'i' ∷ b'm' ∷ b'a' ∷ b'g' ∷ b'e' ∷ [];
            url = [];
          })
          st
