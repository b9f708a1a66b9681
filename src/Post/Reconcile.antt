-- ===== src/Post/Reconcile.antt =====
-- services/post/service/reconcile.go: the repair of the counts of posts from the rows of likes and shares.
use social_ai_backend.Common.{
  ℕ, ◌+◌, Bool, true, false, not, ◌&&◌, ◌||◌, Option, none, some, List, [], ◌∷◌, ltb, if◌then◌else◌,
  any, keep, map, length, take, Text, text_eq, text_lt, is_empty,
}
use social_ai_backend.Common.Int.{ℤ, pos, eqb_ℤ, or_default}
use social_ai_backend.Common.Sort.{sort}
use social_ai_backend.Transaction.{Weather}
use social_ai_backend.Post.Tables.{
  Db, PostRow, LikeRow, ShareRow, has_post_id, like_field, shared_field,
}
use social_ai_backend.Post.Counts.{Error, db_error}

-- What the query returns for a post.
pub record Check : Type 0 where
  pub id : Text
  pub likes : ℤ
  pub shares : ℤ
  pub n_like : ℕ
  pub n_shr : ℕ
  pub busy : Bool

abbrev pub likes_on : Text → Db → List LikeRow
likes_on id db = keep (λ l. text_eq id l.post_id) db.likes

abbrev pub shares_on : Text → Db → List ShareRow
shares_on id db = keep (λ x. text_eq id x.post_id) db.shares

-- created_at > now() - make_interval(...)
abbrev pub recent : ℕ → ℕ → ℕ → Bool
recent now quiet at = ltb now (at + quiet)

unfoldable pub check_of : ℕ → ℕ → Db → PostRow → Check
check_of now quiet db p = record {
  id = p.post_id;
  likes = p.like_count;
  shares = p.share_count;
  n_like = length (likes_on p.post_id db);
  n_shr = length (shares_on p.post_id db);
  busy =
      any (λ l. recent now quiet l.created_at) (likes_on p.post_id db)
      || any (λ x. recent now quiet x.created_at) (shares_on p.post_id db);
}

abbrev pub lower_id : PostRow → PostRow → Bool
lower_id p q = text_lt p.post_id q.post_id

-- WHERE p.post_id > $1 ORDER BY p.post_id LIMIT $2
unfoldable pub next_batch : Text → ℕ → List PostRow → List PostRow
next_batch after batch posts =
    take batch (sort lower_id (keep (λ p. text_lt after p.post_id) posts))

abbrev pub matches : Check → PostRow → Bool
matches c p = has_post_id c.id p && (eqb_ℤ p.like_count c.likes && eqb_ℤ p.share_count c.shares)

-- UPDATE posts SET ... WHERE post_id = $1 AND like_count = $4 AND share_count = $5
abbrev pub repair : Check → PostRow → PostRow
repair c p =
    if matches c p then record p { like_count = pos c.n_like; share_count = pos c.n_shr } else p

-- What Redis answers to a GET.
pub data Reading : Type 0 where
  found : Text → Reading
  missing unreachable : Reading

-- One field of `hasPendingDelta`.
abbrev pub is_pending_delta : Reading → Bool
is_pending_delta (found v) = not (is_empty v) && not (text_eq v (b'0' ∷ []))
is_pending_delta missing = false
is_pending_delta unreachable = true

-- The posts, the numbers of `ReconcileResult` and the position.
pub record Walk : Type 0 where
  pub posts : List PostRow
  pub checked : ℕ
  pub fixed : ℕ
  pub skipped : ℕ
  pub after : Text

abbrev pub last_id : Text → List PostRow → Text
last_id id [] = id
last_id id (p ∷ ps) = last_id p.post_id ps

-- The position after a batch: its last id, or the start when it is short.
unfoldable pub next_position : ℕ → List PostRow → Text
next_position batch rows = if ltb (length rows) batch then [] else last_id [] rows

-- `pending` reads the number of a counter that Redis holds, and `between n` is what other writers do to
-- the posts before the n-th update.
module _ (w : Weather) (pending : Text → Text → Reading)
    (between : ℕ → List PostRow → List PostRow) where
  unfoldable pub has_pending_delta : Text → Bool
  has_pending_delta id =
      is_pending_delta (pending id like_field) || is_pending_delta (pending id shared_field)

  -- The conditional update.
  unfoldable pub update_counts : ℕ → Check → Walk → Walk × Option Error
  update_counts n c p =
      let now = between n p.posts in
      let done = map (repair c) now in
      if w.fails n
      then (record p { posts = if w.commit_lost then done else now }, some db_error)
      else if any (matches c) now
      then (record p { posts = done; fixed = p.fixed + 1 }, none)
      else (record p { posts = done; skipped = p.skipped + 1 }, none)

  -- One round of the loop.
  unfoldable pub reconcile : ℕ → Check → Walk → Walk × Option Error
  unfolding has_pending_delta update_counts
  reconcile n c p =
      let seen = record p { checked = p.checked + 1 } in
      if eqb_ℤ c.likes (pos c.n_like) && eqb_ℤ c.shares (pos c.n_shr)
      then (seen, none)
      else if c.busy || has_pending_delta c.id
      then (record seen { skipped = p.skipped + 1 }, none)
      else update_counts n c seen

  unfoldable pub reconcile_all : ℕ → List Check → Walk → Walk × Option Error
  unfolding reconcile
  reconcile_all n [] p = (p, none)
  reconcile_all n (c ∷ cs) p = elim (reconcile n c p).1 [
    | some e ↦ ((reconcile n c p).0, some e)
    | none ↦ reconcile_all (n + 1) cs (reconcile n c p).0
  ]

  -- `RunOnce`, with the fields `Batch` and `Quiet`, at the position `after`.
  unfoldable pub reconcile_once : ℤ → ℤ → ℕ → Text → Db → Walk × Option Error
  unfolding reconcile_all next_batch next_position check_of
  reconcile_once batch quiet now after db =
      let size = or_default batch 500 in
      let rows = next_batch after size db.posts in
      if w.fails 0
      then (
        record { posts = db.posts; checked = 0; fixed = 0; skipped = 0; after = after },
        some db_error,
      )
      else reconcile_all 1 (map (check_of now (or_default quiet 300000000000) db) rows) (record {
        posts = db.posts;
        checked = 0;
        fixed = 0;
        skipped = 0;
        after = next_position size rows;
      })
