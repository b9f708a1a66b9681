-- ===== src/Post/Tables.antt =====
-- The tables of the post service (migrations/0001_init.sql) and the SQL statements of
-- services/post/service/post.go and store.go, one function for each. A row's creation time is in
-- seconds, other times are in nanoseconds. The embedding of a post is the indexer's.
use social_ai_backend.Common.{
  ℕ, ◌+◌, Bool, true, false, not, ◌&&◌, Option, none, some, List, [], ◌∷◌, ◌++◌, ltb, if◌then◌else◌,
  any, find_first, keep, map, length, Text, text_eq,
}
use social_ai_backend.Common.Int.{ℤ, pos, ◌+ℤ◌}
use social_ai_backend.Common.Sort.{sort}
use social_ai_backend.Outbox.Table.{Outbox}

-- The column `cleanup_status`; `no_cleanup` is the empty text.
pub data CleanupStatus : Type 0 where
  no_cleanup waiting completed failed : CleanupStatus

abbrev pub is_waiting : CleanupStatus → Bool
is_waiting waiting = true
is_waiting _ = false

pub record PostRow : Type 0 where
  pub post_id : Text
  pub user_id : Text
  pub message : Text
  pub url : Text
  pub type : Text
  pub created_at : ℕ
  pub deleted_at : Option ℕ
  pub cleanup_status : CleanupStatus
  pub cleanup_attempts : ℕ
  pub cleanup_error : Text
  pub like_count : ℤ
  pub share_count : ℤ
  pub version : ℕ

pub record LikeRow : Type 0 where
  pub post_id : Text
  pub user_id : Text
  pub created_at : ℕ

pub record ShareRow : Type 0 where
  pub share_id : Text
  pub post_id : Text
  pub user_id : Text
  pub platform : Text
  pub created_at : ℕ

pub record PostCreatedEvent : Type 0 where
  pub post_id : Text
  pub user_id : Text
  pub message : Text
  pub url : Text
  pub type : Text
  pub created_at : ℕ

pub record PostDeletedEvent : Type 0 where
  pub post_id : Text
  pub user_id : Text
  pub deleted_at : ℕ

pub record PostLikedEvent : Type 0 where
  pub post_id : Text
  pub liker_id : Text
  pub owner_id : Text
  pub created_at : ℕ

-- What the service puts into its outbox.
pub data Payload : Type 0 where
  created : PostCreatedEvent → Payload
  deleted : PostDeletedEvent → Payload
  liked : PostLikedEvent → Payload

pub record Db : Type 0 where
  pub posts : List PostRow
  pub likes : List LikeRow
  pub shares : List ShareRow
  pub outbox : Outbox Payload

abbrev pub has_post_id : Text → PostRow → Bool
has_post_id id p = text_eq id p.post_id

abbrev pub is_deleted : PostRow → Bool
is_deleted p = elim p.deleted_at [ none ↦ false | some _ ↦ true ]

abbrev pub is_live : Text → PostRow → Bool
is_live id p = has_post_id id p && not (is_deleted p)

-- The columns of `persistNewPost`, and the defaults of the others.
abbrev pub fresh_row : Text → Text → Text → Text → Text → ℕ → PostRow
fresh_row post_id user_id message url type created_at = record {
  post_id = post_id;
  user_id = user_id;
  message = message;
  url = url;
  type = type;
  created_at = created_at;
  deleted_at = none;
  cleanup_status = no_cleanup;
  cleanup_attempts = 0;
  cleanup_error = [];
  like_count = pos 0;
  share_count = pos 0;
  version = 1;
}

-- INSERT INTO posts, or the violation of the primary key.
unfoldable pub insert_post : PostRow → Db → Option Db
insert_post p db =
    if any (has_post_id p.post_id) db.posts
    then none
    else some (record db { posts = db.posts ++ p ∷ [] })

-- UPDATE posts SET ... WHERE post_id = $1
abbrev pub update_post : Text → (PostRow → PostRow) → List PostRow → List PostRow
update_post id f = map (λ p. if has_post_id id p then f p else p)

abbrev pub mark_deleted : ℕ → PostRow → PostRow
mark_deleted now p = record p {
  deleted_at = some now;
  cleanup_status = waiting;
  cleanup_attempts = 0;
  cleanup_error = [];
  version = p.version + 1;
}

abbrev pub is_like : Text → Text → LikeRow → Bool
is_like id user l = text_eq id l.post_id && text_eq user l.user_id

-- INSERT INTO post_likes ... ON CONFLICT DO NOTHING, with the number of rows affected.
unfoldable pub insert_like : Text → Text → ℕ → List LikeRow → List LikeRow × ℕ
insert_like id user now likes =
    if any (is_like id user) likes
    then (likes, 0)
    else (likes ++ record { post_id = id; user_id = user; created_at = now } ∷ [], 1)

unfoldable pub delete_like : Text → Text → List LikeRow → List LikeRow × ℕ
delete_like id user likes =
    (keep (λ l. not (is_like id user l)) likes, length (keep (is_like id user) likes))

-- INSERT INTO post_shares ... SELECT ... WHERE EXISTS a live post.
unfoldable pub insert_share : ShareRow → Db → Db × ℕ
insert_share share db =
    if any (is_live share.post_id) db.posts
    then (record db { shares = db.shares ++ share ∷ [] }, 1)
    else (db, 0)

-- Ascending, NULLS LAST.
abbrev pub deleted_earlier : PostRow → PostRow → Bool
deleted_earlier p q = elim p.deleted_at [
  | none ↦ false
  | some t ↦ elim q.deleted_at [ none ↦ true | some u ↦ ltb t u ]
]

-- SELECT ... WHERE cleanup_status = 'pending' ORDER BY deleted_at LIMIT 1
unfoldable pub next_cleanup : List PostRow → Option PostRow
next_cleanup posts =
    find_first (λ _. true) (sort deleted_earlier (keep (λ p. is_waiting p.cleanup_status) posts))

-- The columns of `counterColumns`, by the field of the counter.
pub data CountColumn : Type 0 where
  like_column share_column : CountColumn

abbrev pub like_field : Text
like_field = b'l' ∷ b'i' ∷ b'k' ∷ b'e' ∷ b'_' ∷ b'c' ∷ b'o' ∷ b'u' ∷ b'n' ∷ b't' ∷ []

abbrev pub shared_field : Text
shared_field =
    b's' ∷ b'h' ∷ b'a' ∷ b'r' ∷ b'e' ∷ b'd' ∷ b'_' ∷ b'c' ∷ b'o' ∷ b'u' ∷ b'n' ∷ b't' ∷ []

unfoldable pub column_of : Text → Option CountColumn
column_of field =
    if text_eq field like_field
    then some like_column
    else if text_eq field shared_field
    then some share_column
    else none

abbrev pub add_to : CountColumn → ℤ → PostRow → PostRow
add_to like_column n p = record p { like_count = p.like_count +ℤ n }
add_to share_column n p = record p { share_count = p.share_count +ℤ n }
