-- ===== src/Post/Comments.antt =====
-- services/post/service/comments.go: `AddComment` and `ListComments`, with the comments table of
-- migrations/0001_init.sql. A content is a sequence of characters; times are in microseconds.
use social_ai_backend.Common.{
  ℕ, zero, suc, ◌+◌, Bool, true, false, not, ◌&&◌, ◌||◌, Option, none, some, List, [], ◌∷◌, ◌++◌,
  ltb, ◌==◌, if◌then◌else◌, any, find_first, keep, length, take, Text, text_eq, text_lt, is_empty,
  ok, err, ◌>>=◌, ◌>>◌, refuse, found_or,
}
use social_ai_backend.Common.Int.{ℤ}
use social_ai_backend.Common.Sort.{sort}
use social_ai_backend.Transaction.{Weather, db_call}
use social_ai_backend.Message.Page.{limit_of}
use social_ai_backend.Post.Tables.{PostRow, is_live, has_post_id}
use social_ai_backend.Post.Counts.{post_not_found, comment_not_found, invalid_comment, db_error}
use social_ai_backend.Post.Create.{Result}

pub record CommentRow : Type 0 where
  pub comment_id : Text
  pub post_id : Text
  pub parent_comment_id : Option Text
  pub root_comment_id : Text
  pub depth : ℕ
  pub user_id : Text
  pub content : Text
  pub created_at : ℕ
  pub deleted_at : Option ℕ

-- The tables that comments read and write.
pub record Threads : Type 0 where
  pub posts : List PostRow
  pub comments : List CommentRow

abbrev pub max_comment_len : ℕ
max_comment_len = 2000

abbrev pub is_visible : CommentRow → Bool
is_visible c = elim c.deleted_at [ none ↦ true | some _ ↦ false ]

abbrev pub is_comment : Text → CommentRow → Bool
is_comment id c = text_eq id c.comment_id

-- Where a comment stands: its root, its depth and its parent.
pub record Place : Type 0 where
  pub root : Text
  pub depth : ℕ
  pub parent : Option Text

-- A new thread, or a reply to a comment of the same post.
unfoldable pub place : Weather → Text → Text → Text → Threads → Result Place
place w id post [] th = ok (record { root = id; depth = 0; parent = none })
place w id post (c ∷ parent) th = do
  db_call db_error w 1
  row ←
      found_or comment_not_found
        (find_first (λ x. is_comment (c ∷ parent) x && is_visible x) th.comments)
  refuse (not (text_eq row.post_id post)) comment_not_found
  ok (record { root = row.root_comment_id; depth = row.depth + 1; parent = some (c ∷ parent) })

-- What precedes the INSERT.
unfoldable pub prepare :
    Weather → ℕ → Text → Text → Text → Text → Text → Threads → Result CommentRow
unfolding place
prepare w now id post parent user content th = do
  refuse
      (is_empty post || is_empty user || is_empty content || ltb max_comment_len (length content))
      invalid_comment
  db_call db_error w 0
  owner ← found_or post_not_found (find_first (is_live post) th.posts)
  at ← place w id post parent th
  ok (record {
    comment_id = id;
    post_id = post;
    parent_comment_id = at.parent;
    root_comment_id = at.root;
    depth = at.depth;
    user_id = user;
    content = content;
    created_at = now;
    deleted_at = none;
  })

-- FOREIGN KEY (post_id, parent_comment_id) and post_id REFERENCES posts.
abbrev pub keys_hold : CommentRow → Threads → Bool
keys_hold row th = any (has_post_id row.post_id) th.posts && elim row.parent_comment_id [
  | none ↦ true
  | some p ↦ any (λ c. is_comment p c && text_eq row.post_id c.post_id) th.comments
]

-- The INSERT with the constraints of the table.
unfoldable pub insert_comment : CommentRow → Threads → Result Threads
insert_comment row th = do
  refuse (any (is_comment row.comment_id) th.comments) db_error
  refuse (not (keys_hold row th)) comment_not_found
  ok (record th { comments = th.comments ++ row ∷ [] })

-- The statement's effect and answer.
unfoldable pub answered_insert : Weather → Text → Threads → Result Threads → Threads × Result Text
answered_insert w id th (err e) = (th, err (if w.fails 2 then db_error else e))
answered_insert w id th (ok th') =
    if w.fails 2 then (if w.commit_lost then th' else th, err db_error) else (th', ok id)

unfoldable pub prepared : Weather → Threads → Result CommentRow → Threads × Result Text
unfolding answered_insert insert_comment
prepared w th (err e) = (th, err e)
prepared w th (ok row) = answered_insert w row.comment_id th (insert_comment row th)

unfoldable pub add_comment :
    Weather → ℕ → Text → Text → Text → Text → Text → Threads → Threads × Result Text
unfolding prepared prepare
add_comment w now id post parent user content th =
    prepared w th (prepare w now id post parent user content th)

-- A cursor into a post's comments; the zero cursor, with an empty id, means the first page.
pub record CommentCursor : Type 0 where
  pub t : ℕ
  pub id : Text

-- $2 IS NULL OR (created_at, comment_id) > ($2, $3)
unfoldable pub is_later : CommentCursor → CommentRow → Bool
is_later cur c =
    is_empty cur.id
    || (ltb cur.t c.created_at || (c.created_at == cur.t && text_lt cur.id c.comment_id))

-- ORDER BY created_at, comment_id
unfoldable pub written_first : CommentRow → CommentRow → Bool
written_first c d =
    if not (c.created_at == d.created_at)
    then ltb c.created_at d.created_at
    else text_lt c.comment_id d.comment_id

pub record CommentPage : Type 0 where
  pub comments : List CommentRow
  pub next : Option CommentCursor

-- The loop over the rows, with the number of comments to go and the last one that was appended.
unfoldable pub fill_comments : ℕ → Option CommentRow → List CommentRow → CommentPage
fill_comments left last [] = record { comments = []; next = none }
fill_comments zero last (c ∷ cs) = record {
  comments = [];
  next = elim last [ none ↦ none | some l ↦ some (record { t = l.created_at; id = l.comment_id }) ];
}
fill_comments (suc left) last (c ∷ cs) =
    let rest = fill_comments left (some c) cs in
    record { comments = c ∷ rest.comments; next = rest.next }

-- `ListComments` with a decoded cursor, before the page's cursor is encoded.
unfoldable pub list_comments : Weather → Text → ℤ → CommentCursor → Threads → Result CommentPage
unfolding fill_comments
list_comments w post limit cur th = do
  db_call db_error w 0
  owner ← found_or post_not_found (find_first (is_live post) th.posts)
  db_call db_error w 1
  let n = limit_of limit 50 200
  ok (
      fill_comments n none (
        take (n + 1) (
          sort written_first
            (keep (λ c. (text_eq post c.post_id && is_visible c) && is_later cur c) th.comments))))
