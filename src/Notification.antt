-- ===== src/Notification.antt =====
-- services/notification/worker/notification_worker.go: `HandlePostLiked`, over the notifications table of
-- migrations/0001_init.sql.
use social_ai_backend.Common.{
  ℕ, ◌≡◌, refl, ◌∙◌, inl, inr, Bool, true, false, Option, none, some, List, [], ◌∷◌, ◌++◌, arith,
  ltb, if◌then◌else◌, Bool-cases, any, any-append, Text, text_eq, text_eq_refl, Attempt, ok, err,
}
use social_ai_backend.Transaction.{Weather, exec}
use social_ai_backend.Post.Create.{unix}
use social_ai_backend.Post.Tables.{PostLikedEvent}

-- The event is no JSON, or the table did not answer.
pub data Error : Type 0 where
  not_read db_error : Error

pub record NotificationRow : Type 0 where
  pub notification_id : Text
  pub user_id : Text
  pub type : Text
  pub actor_id : Text
  pub post_id : Text
  pub read : Bool
  pub created_at : ℕ

abbrev pub has_id : Text → NotificationRow → Bool
has_id id n = text_eq id n.notification_id

-- "like:" and the ids of the post and of the liker.
abbrev pub like_id : PostLikedEvent → Text
like_id e = b'l' ∷ b'i' ∷ b'k' ∷ b'e' ∷ b':' ∷ (e.post_id ++ b':' ∷ e.liker_id)

abbrev pub notification_of : ℕ → PostLikedEvent → NotificationRow
notification_of now e = record {
  notification_id = like_id e;
  user_id = e.owner_id;
  type = b'l' ∷ b'i' ∷ b'k' ∷ b'e' ∷ [];
  actor_id = e.liker_id;
  post_id = e.post_id;
  read = false;
  created_at = if ltb 0 e.created_at then e.created_at else unix now;
}

-- INSERT INTO notifications ... ON CONFLICT (notification_id) DO NOTHING
unfoldable pub insert_notification :
    NotificationRow → List NotificationRow → List NotificationRow × Unit {0}
insert_notification n rows =
    (if any (has_id n.notification_id) rows then rows else rows ++ n ∷ [], tt)

-- `HandlePostLiked` for the event that the message was read as.
unfoldable pub handle_post_liked :
    Weather
    → ℕ
    → Option PostLikedEvent
    → List NotificationRow
    → List NotificationRow × Attempt Error (Unit {0})
unfolding insert_notification
handle_post_liked w now none rows = (rows, err not_read)
handle_post_liked w now (some e) rows =
    if text_eq e.liker_id e.owner_id
    then (rows, ok tt)
    else exec db_error w 0 (insert_notification (notification_of now e)) rows

-- A like that is handled a second time, at any time and whatever the database does then, leaves the
-- notifications as they are, provided that the first handling reported success.
pub handle_again :
    (w v : Weather) (now later : ℕ) (e : PostLikedEvent) (rows : List NotificationRow)
    → (handle_post_liked w now (some e) rows).1 ≡ ok tt
    → (handle_post_liked v later (some e) (handle_post_liked w now (some e) rows).0).0
      ≡ (handle_post_liked w now (some e) rows).0
unfolding handle_post_liked insert_notification exec
handle_again w v now later e rows done = elim (Bool-cases (text_eq e.liker_id e.owner_id)) [
  | inl own ↦ rw own refl
  | inr other ↦ elim (Bool-cases (w.fails 0)) [
    | inl failed ↦ absurd (ground (arith, rw (other, failed) at done))
    | inr fine ↦ elim (Bool-cases (any (has_id (like_id e)) rows)) [
      | inl old ↦ rw (other, fine, old, old) (unchanged rows)
      | inr new ↦ rw (other, fine, new, there_now) (unchanged (rows ++ notification_of now e ∷ []))
    ]
  ]
]
  where
    unchanged :
        (ns : List NotificationRow)
        → (if◌then◌else◌ {A = List NotificationRow × Attempt Error (Unit {0})}
            (v.fails 0)
            (if v.commit_lost then ns else ns, err db_error)
            (ns, ok tt)).0
          ≡ ns
    unchanged ns = ground arith

    there_now : any (has_id (like_id e)) (rows ++ notification_of now e ∷ []) ≡ true
    there_now =
        any-append (has_id (like_id e)) rows (notification_of now e ∷ [])
        ∙ elim (Bool-cases (any (has_id (like_id e)) rows)) [
          | inl old ↦ rw old refl
          | inr new ↦ rw (new, text_eq_refl (like_id e)) refl
        ]
