-- ===== src/Post/Search.antt =====
-- services/post/service/post.go: the searches and the listings, with shared/backend/search.go, whose answers
-- of Elasticsearch are a parameter.
use social_ai_backend.Common.{
  ℕ, not, ◌&&◌, Option, none, some, List, keep, map, take, Text, text_eq, is_empty, ok, err, ◌>>=◌,
  ◌>>◌, if◌then◌else◌, found_or,
}
use social_ai_backend.Common.Sort.{sort}
use social_ai_backend.Transaction.{Weather, db_call}
use social_ai_backend.Feed.Store.{Reply, down, missing, got}
use social_ai_backend.Post.Tables.{PostRow, is_deleted}
use social_ai_backend.Post.Counts.{db_error, search_error, openai_error}
use social_ai_backend.Post.Create.{Result}
use social_ai_backend.Post.Live.{Post, scan_post, live_posts_by_id}
use social_ai_backend.Post.Home.{newest_row}

abbrev pub user_posts_limit : ℕ
user_posts_limit = 100

abbrev pub recent_limit : ℕ
recent_limit = 50

-- `loadUserPosts`.
unfoldable pub load_user_posts : Weather → Text → List PostRow → Result (List Post)
load_user_posts w user posts = do
  db_call db_error w 0
  ok (
      map scan_post (
        take user_posts_limit
          (sort newest_row (keep (λ p. text_eq user p.user_id && not (is_deleted p)) posts))))

-- The listing of `SearchPostByKeywords` without keywords.
unfoldable pub recent_posts : Weather → List PostRow → Result (List Post)
recent_posts w posts = do
  db_call db_error w 0
  ok (map scan_post (take recent_limit (sort newest_row (keep (λ p. not (is_deleted p)) posts))))

-- The ranked ids that Elasticsearch gives for keywords, `none` if it fails, go to the posts table.
unfoldable pub search_post_by_keywords :
    Weather → (Text → ℕ → Option (List Text)) → Text → List PostRow → Result (List Post)
unfolding recent_posts
search_post_by_keywords w ranked keywords posts =
    if is_empty keywords
    then recent_posts w posts
    else found_or search_error (ranked keywords recent_limit) >>= λ ids.
        live_posts_by_id w ids posts

unfoldable pub semantic_search :
    {V : Type 0}
    → Weather
    → (Text → Option V)
    → (V → ℕ → Option (List Text))
    → Text
    → ℕ
    → List PostRow
    → Result (List Post)
semantic_search w embedding nearest query top_k posts = do
  vector ← found_or openai_error (embedding query)
  ids ← found_or search_error (nearest vector top_k)
  live_posts_by_id w ids posts

-- What the cache answered, if it is a list.
abbrev pub hit : (Text → Option (List Post)) → Reply Text → Option (List Post)
hit read down = none
hit read missing = none
hit read (got s) = read s

-- `SearchPostByUserId` of one caller: a cached list is returned as it was read; else the loader runs, and what
-- it returns is put into the cache, whose answer is not looked at. The cache holds lists as `read` and
-- `write` have them.
unfoldable pub search_post_by_user_id :
    Weather
    → (Text → Option (List Post))
    → (List Post → Text)
    → Text
    → List PostRow
    → Reply Text
    → Option Text × Result (List Post)
unfolding load_user_posts
search_post_by_user_id w read write user posts cached = elim (hit read cached) [
  | some found ↦ (none, ok found)
  | none ↦ elim (load_user_posts w user posts) [
    | err e ↦ (none, err e)
    | ok found ↦ (some (write found), ok found)
  ]
]
