-- ===== src/Post/Home.antt =====
-- services/post/service/feed.go: `GetHomeFeed` and `followedCelebrities`.
pub mod Loading
pub mod Sources
pub mod Exact
pub mod Reading
use social_ai_backend.Common.{
  ℕ, ◌+◌, ◌-◌, Bool, true, false, not, ◌&&◌, ◌||◌, Option, none, some, List, [], ◌∷◌, ltb, ◌==◌,
  if◌then◌else◌, any, find_first, keep, map, length, take, get_elem?, Text, text_eq, text_lt,
  Attempt, ok, err, ◌>>=◌, ◌>>◌,
}
use social_ai_backend.Common.Int.{ℤ}
use social_ai_backend.Common.Sort.{sort}
use social_ai_backend.Transaction.{Weather, db_call}
use social_ai_backend.Message.Page.{limit_of}
use social_ai_backend.Pagecursor.{Format, encode, decode}
use social_ai_backend.Feed.Merge.{Item, Cursor, is_set, cursor_of, merge, before}
use social_ai_backend.Feed.Store.{Reply, down, missing, got, FeedRedis, feed_items}
use social_ai_backend.Social.Graph
use social_ai_backend.Social.Graph.{FollowRow, followed_among}
use social_ai_backend.Post.Tables.{PostRow, has_post_id, is_deleted}
use social_ai_backend.Post.Counts.{redis_error, bad_cursor, db_error}
use social_ai_backend.Post.Create.{Result}
use social_ai_backend.Post.Live.{Post, scan_post, is_post, live_posts_by_id}

-- `NextCursor` is empty on the last page.
pub record FeedPage : Type 0 where
  pub posts : List Post
  pub next_cursor : Text

-- "feed:home:" and the user, and "feed:celebrities".
abbrev pub home_feed_key : Text → Text
home_feed_key user = b'f' ∷ b'e' ∷ b'e' ∷ b'd' ∷ b':' ∷ b'h' ∷ b'o' ∷ b'm' ∷ b'e' ∷ b':' ∷ user

abbrev pub celebrity_set_key : Text
celebrity_set_key =
    b'f' ∷ b'e' ∷ b'e' ∷ b'd' ∷ b':' ∷ b'c' ∷ b'e' ∷ b'l' ∷ b'e' ∷ b'b' ∷ b'r' ∷ b'i' ∷ b't' ∷ b'i'
    ∷ b'e' ∷ b's' ∷ []

-- `err != nil && !backend.IsNil(err)`; a key that is not there counts as an empty list.
abbrev pub reply_or_empty {ℓ} : {A : Type ℓ} → Reply (List A) → Result (List A)
reply_or_empty down = err redis_error
reply_or_empty missing = ok []
reply_or_empty (got xs) = ok xs

-- The queries of the graph fail only with an error of the database.
abbrev pub of_graph {ℓ} : {A : Type ℓ} → Graph.Result A → Result A
of_graph (err e) = err db_error
of_graph (ok a) = ok a

-- The weather of the calls from the n-th on.
abbrev pub from_call : ℕ → Weather → Weather
from_call n w = record w { fails = λ k. w.fails (n + k) }

unfoldable pub followed_celebrities :
    FeedRedis → Weather → Text → List FollowRow → Result (List Text)
followed_celebrities redis w user follows = do
  celebs ← reply_or_empty (redis.s_members celebrity_set_key)
  of_graph (followed_among w user celebs follows)

-- user_id = ANY($1) AND deleted_at IS NULL
abbrev pub by_celebrity : List Text → PostRow → Bool
by_celebrity celebs p = any (text_eq p.user_id) celebs && not (is_deleted p)

-- $2 IS NULL OR (created_at, post_id) < ($2, $3)
unfoldable pub is_after : Cursor → PostRow → Bool
is_after c p =
    not (is_set c) || (ltb p.created_at c.t || (p.created_at == c.t && text_lt p.post_id c.id))

-- ORDER BY created_at DESC, post_id DESC
unfoldable pub newest_row : PostRow → PostRow → Bool
newest_row p q =
    if not (p.created_at == q.created_at)
    then ltb q.created_at p.created_at
    else text_lt q.post_id p.post_id

unfoldable pub select_pulled : List Text → Cursor → ℕ → List PostRow → List Post
unfolding is_after newest_row
select_pulled celebs c limit posts =
    map scan_post
      (take limit (sort newest_row (keep (λ p. by_celebrity celebs p && is_after c p) posts)))

unfoldable pub pulled_posts : Weather → List Text → Cursor → ℕ → List PostRow → Result (List Post)
unfolding select_pulled
pulled_posts w [] c limit posts = ok []
pulled_posts w (celeb ∷ celebs) c limit posts = do
  db_call db_error w 1
  ok (select_pulled (celeb ∷ celebs) c limit posts)

abbrev pub item_of : Post → Item
item_of p = record { post_id = p.post_id; author_id = p.user_id; created_at = p.created_at }

-- The assignments to the map `byID`, of which the last one to a key counts.
abbrev pub put_all : List Post → List Post → List Post
put_all [] by_id = by_id
put_all (p ∷ ps) by_id = put_all ps (p ∷ by_id)

-- The variable `need`.
abbrev pub needed : List Item → List Post → List Text
needed [] by_id = []
needed (it ∷ items) by_id =
    let rest = needed items by_id in
    if any (is_post it.post_id) by_id then rest else it.post_id ∷ rest

-- The last loop.
abbrev pub shown : List Item → List Post → List Post
shown [] by_id = []
shown (it ∷ items) by_id = elim (find_first (is_post it.post_id) by_id) [
  | none ↦ shown items by_id
  | some p ↦ p ∷ shown items by_id
]

-- The cut of step 3: the items of the page, and the cursor if items are left.
abbrev pub page_items : ℕ → List Item → List Item
page_items limit merged = if ltb limit (length merged) then take limit merged else merged

-- The zero cursor that `Decode` fills.
abbrev pub no_cursor : Cursor
no_cursor = record { t = 0; id = [] }

module _ (f : Format Cursor) where
  unfoldable pub next_cursor_of : ℕ → List Item → Text
  next_cursor_of limit merged =
      if ltb limit (length merged)
      then (elim (get_elem? merged (limit - 1)) [ none ↦ [] | some it ↦ encode f (cursor_of it) ])
      else []

  -- Step 4 for the merged items.
  unfoldable pub load_page : Weather → ℕ → List Item → List Post → List PostRow → Result FeedPage
  unfolding next_cursor_of
  load_page w limit merged by_id posts = do
    loaded ← live_posts_by_id (from_call 2 w) (needed (page_items limit merged) by_id) posts
    ok (record {
      posts = shown (page_items limit merged) (put_all loaded by_id);
      next_cursor = next_cursor_of limit merged;
    })

  unfoldable pub get_home_feed :
      FeedRedis → Weather → Text → ℤ → Text → List FollowRow → List PostRow → Result FeedPage
  unfolding load_page
  get_home_feed redis w user limit cursor follows posts = do
    let n = limit_of limit 20 100
    cur ← decode f bad_cursor cursor no_cursor
    pushed ← reply_or_empty (feed_items redis (home_feed_key user) cur (n + 1))
    celebs ← followed_celebrities redis w user follows
    pulled ← pulled_posts w celebs cur (n + 1) posts
    let merged = before (merge 0 (pushed ∷ map item_of pulled ∷ [])) cur
    load_page w n merged (put_all pulled []) posts
