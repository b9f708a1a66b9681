-- ===== src/Post/Growth.antt =====
-- The transactions of services/post/service/post.go that store a post, delete one or store a like,
-- each with its event, and the counts of rows and events.
use social_ai_backend.Common.{
  ℕ, ◌+◌, ◌≤◌, ◌≡◌, refl, sym, subst, ◌∙◌, inl, inr, Bool, true, false, ◌&&◌, List, [], ◌∷◌, ◌++◌,
  arith, Bool-cases, any, Text, text_eq, text_eq→eq, Ensures, after,
}
use social_ai_backend.Common.Count.{count_if, one_if, count_if_snoc, count_if_none}
use social_ai_backend.Transaction.{Weather, db_call}
use social_ai_backend.Post.Tables.{
  Db, PostRow, LikeRow, Payload, created, has_post_id, is_deleted, is_like, insert_post,
}
use social_ai_backend.Post.Counts.{db_error}
use social_ai_backend.Post.Create.{
  NewPost, row_of, created_event, created_topic, record_event, persist_tx,
}
use social_ai_backend.Post.Invariant.{
  IsValid, posts_with, deleted_with, likes_of, events_of, tells_created, tells_deleted, tells_liked,
  record_event-events,
}

-- The effect of a change of the posts and likes, made with one event.
pub record Matches (db : Db) (posts : List PostRow) (likes : List LikeRow) (payload : Payload)
    : Type 0 where
  pub unique : (id : Text) → count_if (has_post_id id) posts ≤ 1
  pub creation :
      (id : Text)
      → count_if (has_post_id id) posts ≡ posts_with id db + one_if (tells_created id payload)
  pub deletion :
      (id : Text)
      → count_if (λ p. has_post_id id p && is_deleted p) posts
        ≡ deleted_with id db + one_if (tells_deleted id payload)
  pub once : (id user : Text) → count_if (is_like id user) likes ≤ 1
  pub like :
      (id user : Text)
      → count_if (is_like id user) likes
        ≤ likes_of id user db + one_if (tells_liked id user payload)

pub recorded-IsValid :
    (db : Db) (posts : List PostRow) (likes : List LikeRow) (id topic key : Text)
    (payload : Payload) (now : ℕ)
    → IsValid db
    → Matches db posts likes payload
    → IsValid (record_event id topic key payload now (record db { posts = posts; likes = likes })).0
unfolding record_event
recorded-IsValid db posts likes id topic key payload now v h = record {
  unique = h.unique;
  created_told = λ j. omega (arith, told (tells_created j), v.created_told j, h.creation j);
  deleted_told = λ j. omega (arith, told (tells_deleted j), v.deleted_told j, h.deletion j);
  liked_once = h.once;
  liked_told =
      λ j user. omega (arith, told (tells_liked j user), v.liked_told j user, h.like j user);
}
  where
    told :
        (tells : Payload → Bool)
        → events_of tells
            (record_event id topic key payload now (record db { posts = posts; likes = likes })).0
          ≡ events_of tells db + one_if (tells payload)
    told tells =
        record_event-events tells id topic key payload now
          (record db { posts = posts; likes = likes })

no_post :
    (db : Db) (id j : Text)
    → any (has_post_id id) db.posts ≡ false
    → text_eq j id ≡ true
    → posts_with j db ≡ 0
no_post db id j fresh e =
    subst (λ t. posts_with t db ≡ 0) (sym (text_eq→eq j id e))
      (count_if_none (has_post_id id) db.posts fresh)

created-Matches :
    (now : ℕ) (p : NewPost) (db : Db)
    → any (has_post_id p.post_id) db.posts ≡ false
    → IsValid db
    → Matches db (db.posts ++ row_of p now ∷ []) db.likes (created (created_event p now))
created-Matches now p db fresh v = record {
  unique = λ id. elim (Bool-cases (text_eq id p.post_id)) [
    | inl e ↦ ground (arith, one_more id, no_post db p.post_id id fresh e, e)
    | inr e ↦ ground (arith, one_more id, v.unique id, e)
  ];
  creation = one_more;
  deletion = λ id.
      count_if_snoc (λ q. has_post_id id q && is_deleted q) db.posts (row_of p now)
      ∙ elim (Bool-cases (text_eq id p.post_id)) [ inl e ↦ rw e refl | inr e ↦ rw e refl ];
  once = v.liked_once;
  like = λ id user. omega arith;
}
  where
    one_more :
        (id : Text)
        → count_if (has_post_id id) (db.posts ++ row_of p now ∷ [])
          ≡ posts_with id db + one_if (text_eq id p.post_id)
    one_more id = count_if_snoc (has_post_id id) db.posts (row_of p now)

pub persist_tx-IsValid :
    (w : Weather) (now : ℕ) (p : NewPost) (db : Db)
    → IsValid db
    → Ensures (λ r. IsValid r.0) (persist_tx w now p db)
unfolding persist_tx insert_post
persist_tx-IsValid w now p db v =
    after _ (db_call db_error w 2) _ (elim (Bool-cases (any (has_post_id p.post_id) db.posts)) [
      | inl e ↦ rw e tt
      | inr e ↦ rw e (
          after _ (db_call db_error w 3) _ (
            recorded-IsValid db (db.posts ++ row_of p now ∷ []) db.likes p.post_id created_topic
              p.user_id (created (created_event p now)) now v (created-Matches now p db e v)))
    ])
