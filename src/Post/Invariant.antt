-- ===== src/Post/Invariant.antt =====
-- The posts, likes and events of the post service (services/post/service/post.go) side by side.
use social_ai_backend.Common.{
  ℕ, ◌+◌, ◌≤◌, ◌≡◌, refl, sym, subst, ◌∙◌, inl, inr, Bool, false, ◌&&◌, List, Bool-cases, Text,
  text_eq, Aligned,
}
use social_ai_backend.Common.Count.{count_if, one_if, count_if_snoc, count_if-map, count_if-Aligned}
use social_ai_backend.Outbox.Table.{Row, enqueue}
use social_ai_backend.Post.Tables.{
  Db, PostRow, Payload, created, deleted, liked, has_post_id, is_deleted, is_like, update_post,
}
use social_ai_backend.Post.Create.{record_event}

abbrev pub tells_created : Text → Payload → Bool
tells_created id (created e) = text_eq id e.post_id
tells_created id _ = false

abbrev pub tells_deleted : Text → Payload → Bool
tells_deleted id (deleted e) = text_eq id e.post_id
tells_deleted id _ = false

abbrev pub tells_liked : Text → Text → Payload → Bool
tells_liked id user (liked e) = text_eq id e.post_id && text_eq user e.liker_id
tells_liked id user _ = false

-- The numbers of rows and of events.
abbrev pub posts_with : Text → Db → ℕ
posts_with id db = count_if (has_post_id id) db.posts

abbrev pub deleted_with : Text → Db → ℕ
deleted_with id db = count_if (λ p. has_post_id id p && is_deleted p) db.posts

abbrev pub likes_of : Text → Text → Db → ℕ
likes_of id user db = count_if (is_like id user) db.likes

abbrev pub events_of : (Payload → Bool) → Db → ℕ
events_of tells db = count_if (λ r. tells r.payload) db.outbox.rows

pub record IsValid (db : Db) : Type 0 where
  pub unique : (id : Text) → posts_with id db ≤ 1
  pub created_told : (id : Text) → events_of (tells_created id) db ≡ posts_with id db
  pub deleted_told : (id : Text) → events_of (tells_deleted id) db ≡ deleted_with id db
  pub liked_once : (id user : Text) → likes_of id user db ≤ 1
  pub liked_told : (id user : Text) → likes_of id user db ≤ events_of (tells_liked id user) db

pub record_event-events :
    (tells : Payload → Bool) (id topic key : Text) (payload : Payload) (now : ℕ) (db : Db)
    → events_of tells (record_event id topic key payload now db).0
      ≡ events_of tells db + one_if (tells payload)
unfolding record_event enqueue
record_event-events tells id topic key payload now db =
    count_if_snoc (λ r. tells r.payload) db.outbox.rows _

-- Tables with the same posts and likes whose rows of the outbox have the same payloads.
abbrev pub SamePayload : Row Payload → Row Payload → Type 0
SamePayload r r' = r'.payload ≡ r.payload

pub outbox-IsValid :
    (db : Db) (rows : List (Row Payload))
    → IsValid db
    → Aligned SamePayload db.outbox.rows rows
    → IsValid (record db { outbox = record db.outbox { rows = rows } })
outbox-IsValid db rows v h = record {
  unique = v.unique;
  created_told = λ id. same (tells_created id) ∙ v.created_told id;
  deleted_told = λ id. same (tells_deleted id) ∙ v.deleted_told id;
  liked_once = v.liked_once;
  liked_told = λ id user.
      subst (λ n. likes_of id user db ≤ n) (sym (same (tells_liked id user)))
        (v.liked_told id user);
}
  where
    same : (tells : Payload → Bool) → count_if (λ r. tells r.payload) rows ≡ events_of tells db
    same tells =
        count_if-Aligned SamePayload (λ r. tells r.payload)
          (λ a b e. subst (λ x. tells x ≡ tells a.payload) (sym e) refl) db.outbox.rows rows h

-- An update of posts that leaves alone their ids and whether they are deleted.
pub update_post-IsValid :
    (id : Text) (f : PostRow → PostRow) (db : Db)
    → ((p : PostRow) → (f p).post_id ≡ p.post_id)
    → ((p : PostRow) → (f p).deleted_at ≡ p.deleted_at)
    → IsValid db
    → IsValid (record db { posts = update_post id f db.posts })
update_post-IsValid id f db same_id same_time v = record {
  unique = λ j. subst (λ n. n ≤ 1) (sym (posts_kept j)) (v.unique j);
  created_told = λ j. v.created_told j ∙ sym (posts_kept j);
  deleted_told = λ j. v.deleted_told j ∙ sym (deleted_kept j);
  liked_once = v.liked_once;
  liked_told = v.liked_told;
}
  where
    posts_kept : (j : Text) → count_if (has_post_id j) (update_post id f db.posts) ≡ posts_with j db
    posts_kept j =
        count_if-map (has_post_id j) (has_post_id j) _
          (λ p. elim (Bool-cases (has_post_id id p)) [
            | inl e ↦ rw (e, same_id p) refl
            | inr e ↦ rw e refl
          ])
          db.posts

    deleted_kept :
        (j : Text)
        → count_if (λ p. has_post_id j p && is_deleted p) (update_post id f db.posts)
          ≡ deleted_with j db
    deleted_kept j =
        count_if-map (λ p. has_post_id j p && is_deleted p) (λ p. has_post_id j p && is_deleted p) _
          (λ p. elim (Bool-cases (has_post_id id p)) [
            | inl e ↦ rw (e, same_id p, same_time p) refl
            | inr e ↦ rw e refl
          ])
          db.posts
