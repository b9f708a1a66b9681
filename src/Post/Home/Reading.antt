-- ===== src/Post/Home/Reading.antt =====
-- Reading a home feed page after page by the cursors of `GetHomeFeed` (services/post/service/feed.go).
use social_ai_backend.Common.{
  ℕ, zero, suc, ◌-◌, ◌≤◌, ◌<◌, ◌≡◌, refl, sym, ap, subst, ◌∙◌, inl, inr, true, false, Option, List,
  [], ◌∷◌, ◌++◌, append_assoc, arith, ltb, Bool-cases, Option-cases, length, take, drop,
  take-append-drop, take_all, length-drop, cut_behind, All, Text, is_empty, ok, err,
}
use social_ai_backend.Common.Count.{count_if}
use social_ai_backend.Common.Int.{ℤ}
use social_ai_backend.Transaction.{Weather}
use social_ai_backend.Message.Page.{limit_of}
use social_ai_backend.Pagecursor.{
  Format, FormatLaws, encode, decode, decode-encode, is_empty-encode,
}
use social_ai_backend.Feed.Merge.{Item, Cursor, cursor_of, before, merge}
use social_ai_backend.Feed.Merge.Cut.{Agree}
use social_ai_backend.Feed.Merge.Paging.{before-cursor_of}
use social_ai_backend.Feed.Store.{got, FeedRedis}
use social_ai_backend.Feed.Store.Window.{HoldsSet}
use social_ai_backend.Social.Graph.{FollowRow, followed_among}
use social_ai_backend.Post.Tables.{PostRow, has_post_id}
use social_ai_backend.Post.Counts.{bad_cursor}
use social_ai_backend.Post.Create.{Result}
use social_ai_backend.Post.Live.{Post, found_posts, look_up}
use social_ai_backend.Post.Home.{
  FeedPage, home_feed_key, celebrity_set_key, next_cursor_of, no_cursor, get_home_feed,
}
use social_ai_backend.Post.Home.Exact.{
  ids_of, page_of, whole_feed, limit_of_positive, home_feed_exact,
}
use social_ai_backend.Post.Home.Sources.{celebrity_items}

-- A client that asks for the next page as long as it is given a cursor, with fuel for its requests.
abbrev pub read_pages : ℕ → (Text → Result FeedPage) → Text → List Post
read_pages zero ask cursor = []
read_pages (suc fuel) ask cursor = elim (ask cursor) [
  | err _ ↦ []
  | ok page ↦ elim (is_empty page.next_cursor) [
    | true ↦ page.posts
    | false ↦ page.posts ++ read_pages fuel ask page.next_cursor
  ]
]

read_more :
    (fuel : ℕ) (ask : Text → Result FeedPage) (s t : Text) (page : FeedPage)
    → ask s ≡ ok page
    → page.next_cursor ≡ t
    → is_empty t ≡ false
    → read_pages (suc fuel) ask s ≡ page.posts ++ read_pages fuel ask t
read_more fuel ask s t page e h k =
    rw (read_pages, e, h, k) (ap (λ (u : Text). page.posts ++ read_pages fuel ask u) h)

read_last :
    (fuel : ℕ) (ask : Text → Result FeedPage) (s : Text) (page : FeedPage)
    → ask s ≡ ok page
    → page.next_cursor ≡ []
    → read_pages (suc fuel) ask s ≡ page.posts
read_last fuel ask s page e h = rw (read_pages, e, h) refl

found_posts-append :
    (look : Text → Option Post) (is js : List Text)
    → found_posts look (is ++ js) ≡ found_posts look is ++ found_posts look js
found_posts-append look [] js = refl
found_posts-append look (i ∷ is) js = elim (Option-cases (look i)) [
  | inl e ↦ rw (found_posts, e) (found_posts-append look is js)
  | inr (p, e) ↦ rw (found_posts, e) (ap (◌∷◌ p) (found_posts-append look is js))
]

ids_of-append : (xs ys : List Item) → ids_of (xs ++ ys) ≡ ids_of xs ++ ids_of ys
ids_of-append [] ys = refl
ids_of-append (x ∷ xs) ys = ap (◌∷◌ x.post_id) (ids_of-append xs ys)

found-in_two :
    (look : Text → Option Post) (n : ℕ) (xs : List Item)
    → found_posts look (ids_of (take n xs)) ++ found_posts look (ids_of (drop n xs))
      ≡ found_posts look (ids_of xs)
found-in_two look n xs =
    sym (found_posts-append look (ids_of (take n xs)) (ids_of (drop n xs)))
    ∙ ap (found_posts look)
        (sym (ids_of-append (take n xs) (drop n xs)) ∙ ap ids_of (take-append-drop n xs))

module _ (f : Format Cursor) (laws : FormatLaws f) (posts : List PostRow) (n : ℕ) (pos : 0 < n)
    (lists : List (List Item)) (ask : Text → Result FeedPage)
    (answers : (s : Text) (c : Cursor)
      → decode f bad_cursor s no_cursor ≡ ok c
      → ask s ≡ ok (page_of f posts n (before (merge 0 lists) c))) where
  -- The pages from a cursor on show what follows it.
  pages_from :
      (fuel : ℕ) (pre rest : List Item) (s : Text) (c : Cursor)
      → merge 0 lists ≡ pre ++ rest
      → before (merge 0 lists) c ≡ rest
      → decode f bad_cursor s no_cursor ≡ ok c
      → length rest < fuel
      → read_pages fuel ask s ≡ found_posts (look_up posts) (ids_of rest)
  unfolding next_cursor_of
  pages_from zero pre rest s c split after read enough = absurd (omega arith)
  pages_from (suc fuel) pre rest s c split after read enough =
      elim (Bool-cases (ltb n (length rest))) [
        | inr whole ↦
            read_last fuel ask s (page_of f posts n rest) (rw after at (answers s c read))
              (rw whole refl)
            ∙ ap (λ (its : List Item). found_posts (look_up posts) (ids_of its))
                (take_all n rest (ground (arith, whole)))
        | inl more ↦
            let (x, at, _, e) = cut_behind (n - 1) rest (ground (arith, more)) in
            let last : suc (n - 1) ≡ n = omega arith in
            let left : rest ≡ take (n - 1) rest ++ x ∷ drop n rest =
              subst (λ m. rest ≡ take (n - 1) rest ++ x ∷ drop m rest) last e in
            let here_split : merge 0 lists ≡ (pre ++ take (n - 1) rest) ++ x ∷ drop n rest =
              split
              ∙ ap (◌++◌ pre) left
              ∙ sym (append_assoc pre (take (n - 1) rest) (x ∷ drop n rest)) in
            let next_split : merge 0 lists ≡ ((pre ++ take (n - 1) rest) ++ x ∷ []) ++ drop n rest =
              here_split ∙ sym (append_assoc (pre ++ take (n - 1) rest) (x ∷ []) (drop n rest)) in
            let later =
              pages_from fuel ((pre ++ take (n - 1) rest) ++ x ∷ []) (drop n rest)
                (encode f (cursor_of x)) (cursor_of x) next_split
                (before-cursor_of 0 lists (pre ++ take (n - 1) rest) (drop n rest) x here_split)
                (decode-encode f bad_cursor laws (cursor_of x) no_cursor)
                (ground (arith, length-drop n rest, more)) in
            read_more fuel ask s (encode f (cursor_of x)) (page_of f posts n rest)
              (rw after at (answers s c read)) (rw (more, at) refl)
              (is_empty-encode f laws (cursor_of x))
            ∙ rw later (found-in_two (look_up posts) n rest)
      ]

-- With a database and a Redis that answer, a client that follows the cursors of `GetHomeFeed` from
-- the first page on until there is none, with any limit, is shown the live posts of the whole feed
-- in its order: the sorted set of what was pushed to the user, merged with the posts of the
-- followed celebrities. Nothing is repeated or skipped at the borders of the pages, and as many
-- requests as the feed has entries, and one more, are enough. The encoding of a cursor is to be
-- read back as written, the ids of the posts are to be different and not empty, and entries for one
-- post are to have one time.
pub home_feed_pages :
    (f : Format Cursor) (redis : FeedRedis) (w : Weather) (user : Text) (follows : List FollowRow)
    (posts : List PostRow) (members : List Item) (all_celebs celebs : List Text)
    → FormatLaws f
    → HoldsSet redis (home_feed_key user) members
    → All (λ it. is_empty it.post_id ≡ false) members
    → redis.s_members celebrity_set_key ≡ got all_celebs
    → followed_among w user all_celebs follows ≡ ok celebs
    → ((n : ℕ) → w.fails n ≡ false)
    → ((id : Text) → count_if (has_post_id id) posts ≤ 1)
    → All (λ p. is_empty p.post_id ≡ false) posts
    → Agree (members ∷ celebrity_items celebs posts ∷ [])
    → (limit : ℤ) (fuel : ℕ) → length (whole_feed members celebs posts) < fuel
    → read_pages fuel (λ cursor. get_home_feed f redis w user limit cursor follows posts) []
      ≡ found_posts (look_up posts) (ids_of (whole_feed members celebs posts))
unfolding before decode
home_feed_pages f redis w user follows posts members all_celebs celebs laws held named celebs_read
      followed calm unique rows_named agree limit fuel enough =
    pages_from f laws posts (limit_of limit 20 100) (limit_of_positive limit)
      (members ∷ celebrity_items celebs posts ∷ [])
      (λ cursor. get_home_feed f redis w user limit cursor follows posts)
      (home_feed_exact f redis w user follows posts members all_celebs celebs held named celebs_read
        followed calm unique rows_named agree limit)
      fuel [] (whole_feed members celebs posts) [] no_cursor refl refl refl enough
