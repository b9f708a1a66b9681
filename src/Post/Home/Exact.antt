-- ===== src/Post/Home/Exact.antt =====
-- `GetHomeFeed` (services/post/service/feed.go) against the whole feed: what the bounded reads of Redis and
-- of the posts table show, page by page.
use social_ai_backend.Common.{
  ℕ, zero, suc, ◌+◌, ◌-◌, ◌≤◌, ◌<◌, ◌≡◌, refl, sym, ap, ◌∙◌, inl, inr, false, Option, none, some,
  List, [], ◌∷◌, arith, ltb, if◌then◌else◌, Bool-cases, length, take, take-map, take_shorter,
  take_all, length-take, length-map, get_elem?, get_elem?-take, map, All, All-of_In, keep_none,
  take_nil, ◌&&◌, Text, is_empty, ok,
}
use social_ai_backend.Common.Count.{count_if}
use social_ai_backend.Common.Int.{ℤ}
use social_ai_backend.Common.Sort.{sort}
use social_ai_backend.Transaction.{Weather}
use social_ai_backend.Message.Page.{limit_of}
use social_ai_backend.Pagecursor.{Format, encode, decode}
use social_ai_backend.Feed.Merge.{Item, Cursor, cursor_of, before, merge}
use social_ai_backend.Feed.Merge.Cut.{AreSources, Agree, entry, window, merge_cut}
use social_ai_backend.Feed.Store.{got, FeedRedis}
use social_ai_backend.Feed.Store.Window.{HoldsSet, feed_items_lem}
use social_ai_backend.Social.Graph.{FollowRow, followed_among}
use social_ai_backend.Post.Tables.{PostRow, has_post_id}
use social_ai_backend.Post.Counts.{bad_cursor}
use social_ai_backend.Post.Live.{Post, found_posts, look_up, live_posts_by_id_lem}
use social_ai_backend.Post.Home.{
  FeedPage, by_celebrity, is_after, home_feed_key, celebrity_set_key, from_call,
  followed_celebrities, select_pulled, pulled_posts, item_of, put_all, needed, page_items,
  next_cursor_of, load_page, no_cursor, get_home_feed,
}
use social_ai_backend.Post.Home.Loading.{put_all-All, shown_lem}
use social_ai_backend.Post.Home.Sources.{
  celebrity_items, celebrity_items-IsSource, select_pulled-window, select_pulled-AreCurrent,
  look_up-named,
}

-- The post ids that a page of `n` entries shows.
abbrev pub ids_of : List Item → List Text
ids_of = map (λ it. it.post_id)

page_items-eq-take : (n : ℕ) (its : List Item) → page_items n its ≡ take n its
page_items-eq-take n its = elim (Bool-cases (ltb n (length its))) [
  | inl e ↦ rw e refl
  | inr e ↦ rw e (sym (take_all n its (ground (arith, e))))
]

ids_of-entry : (its : List Item) → ids_of (map entry its) ≡ ids_of its
ids_of-entry [] = refl
ids_of-entry (it ∷ its) = ap (◌∷◌ it.post_id) (ids_of-entry its)

-- The ids of a page are read off its first entries, authors aside.
ids_of_page :
    (n : ℕ) (rs fs : List Item)
    → take (n + 1) (map entry rs) ≡ take (n + 1) (map entry fs)
    → ids_of (page_items n rs) ≡ ids_of (take n fs)
ids_of_page n rs fs h =
    ap ids_of (page_items-eq-take n rs)
    ∙ sym (ids_of-entry (take n rs))
    ∙ ap ids_of (
        sym (take-map entry n rs)
        ∙ sym (take_shorter n (n + 1) (map entry rs) (omega arith))
        ∙ ap (take n) h
        ∙ take_shorter n (n + 1) (map entry fs) (omega arith)
        ∙ take-map entry n fs)
    ∙ ids_of-entry (take n fs)

same_cut :
    (n : ℕ) (rs fs : List Item)
    → take (n + 1) (map entry rs) ≡ take (n + 1) (map entry fs)
    → ltb n (length rs) ≡ ltb n (length fs)
same_cut n rs fs h = ground (
  arith,
  ap length h,
  length-take (n + 1) (map entry rs),
  length-take (n + 1) (map entry fs),
  length-map entry rs,
  length-map entry fs,
)

module _ (f : Format Cursor) where
  abbrev cursor_text : Option Item → Text
  cursor_text o = elim o [ none ↦ [] | some it ↦ encode f (cursor_of it) ]

  cursor_text-entry :
      (i : ℕ) (its : List Item)
      → cursor_text (get_elem? (map entry its) i) ≡ cursor_text (get_elem? its i)
  cursor_text-entry i [] = refl
  cursor_text-entry zero (it ∷ its) = refl
  cursor_text-entry (suc i) (it ∷ its) = cursor_text-entry i its

  next_cursor_agree :
      (n : ℕ) (rs fs : List Item)
      → 0 < n
      → take (n + 1) (map entry rs) ≡ take (n + 1) (map entry fs)
      → next_cursor_of f n rs ≡ next_cursor_of f n fs
  unfolding next_cursor_of
  next_cursor_agree n rs fs pos h =
      let within : suc (n - 1) ≤ n + 1 = omega arith in
      let last : cursor_text (get_elem? rs (n - 1)) ≡ cursor_text (get_elem? fs (n - 1)) =
        sym (cursor_text-entry (n - 1) rs)
        ∙ ap cursor_text (
            sym (get_elem?-take (n - 1) (n + 1) (map entry rs) within)
            ∙ ap (λ (xs : List Item). get_elem? xs (n - 1)) h
            ∙ get_elem?-take (n - 1) (n + 1) (map entry fs) within)
        ∙ cursor_text-entry (n - 1) fs in
      rw (same_cut n rs fs h) (ap (λ (t : Text). if ltb n (length fs) then t else []) last)

  -- The page of `n` entries at the head of a feed.
  abbrev pub page_of : List PostRow → ℕ → List Item → FeedPage
  page_of posts n feed = record {
    posts = found_posts (look_up posts) (ids_of (take n feed));
    next_cursor = next_cursor_of f n feed;
  }

pub limit_of_positive : (limit : ℤ) → 0 < limit_of limit 20 100
unfolding limit_of
limit_of_positive limit = ground arith

-- The whole home feed of a user: what was pushed to it, and the live posts of the followed celebrities.
abbrev pub whole_feed : List Item → List Text → List PostRow → List Item
whole_feed members celebs posts = merge 0 (members ∷ celebrity_items celebs posts ∷ [])

pulled_posts_lem :
    (w : Weather) (celebs : List Text) (c : Cursor) (k : ℕ) (posts : List PostRow)
    → w.fails 1 ≡ false
    → pulled_posts w celebs c k posts ≡ ok (select_pulled celebs c k posts)
unfolding pulled_posts select_pulled sort
pulled_posts_lem w [] c k posts calm =
    rw
      (
        keep_none (λ p. by_celebrity [] p && is_after c p) posts (All-of_In _ posts (λ _ _. refl)),
        take_nil {A = PostRow} k,
      )
      refl
pulled_posts_lem w (celeb ∷ celebs) c k posts calm = rw calm refl

module _ (f : Format Cursor) (redis : FeedRedis) (w : Weather) (user : Text)
    (follows : List FollowRow) (posts : List PostRow) (members : List Item)
    (all_celebs celebs : List Text) where
  -- With a database and a Redis that answer, `GetHomeFeed` returns the first `limit` entries after the
  -- cursor of the whole feed, those whose post is live, and the cursor of the last of them if entries are
  -- left.
  pub home_feed_exact :
      HoldsSet redis (home_feed_key user) members
      → All (λ it. is_empty it.post_id ≡ false) members
      → redis.s_members celebrity_set_key ≡ got all_celebs
      → followed_among w user all_celebs follows ≡ ok celebs
      → ((n : ℕ) → w.fails n ≡ false)
      → ((id : Text) → count_if (has_post_id id) posts ≤ 1)
      → All (λ p. is_empty p.post_id ≡ false) posts
      → Agree (members ∷ celebrity_items celebs posts ∷ [])
      → (limit : ℤ) (cursor : Text) (c : Cursor) → decode f bad_cursor cursor no_cursor ≡ ok c
      → get_home_feed f redis w user limit cursor follows posts
        ≡ ok (page_of f posts (limit_of limit 20 100) (before (whole_feed members celebs posts) c))
  unfolding get_home_feed followed_celebrities load_page
  home_feed_exact held named celebs_read followed calm unique rows_named agree limit cursor c read =
      let n : ℕ = limit_of limit 20 100 in
      let pulled : List Post = select_pulled celebs c (n + 1) posts in
      let whole : List Item = before (whole_feed members celebs posts) c in
      let sources : AreSources (members ∷ celebrity_items celebs posts ∷ []) = (
        record { ordered = held.ordered; named = named },
        (celebrity_items-IsSource posts unique celebs rows_named, tt),
      ) in
      let merged : List Item =
        before (merge 0 (window (n + 1) c members ∷ map item_of pulled ∷ [])) c in
      let cut : take (n + 1) (map entry merged) ≡ take (n + 1) (map entry whole) =
        rw (select_pulled-window celebs c (n + 1) posts)
          (merge_cut (n + 1) c (members ∷ celebrity_items celebs posts ∷ []) sources agree) in
      let page =
        shown_lem (look_up posts) (page_items n merged) (put_all pulled []) (look_up-named posts)
          (put_all-All _ pulled [] (select_pulled-AreCurrent posts unique celebs c (n + 1)) tt) in
      rw
        (
          read,
          feed_items_lem redis (home_feed_key user) members held c (n + 1),
          celebs_read,
          followed,
          pulled_posts_lem w celebs c (n + 1) posts (calm 1),
          live_posts_by_id_lem (from_call 2 w) (needed (page_items n merged) (put_all pulled []))
              posts (calm 2),
          page,
          ids_of_page n merged whole cut,
          next_cursor_agree f n merged whole (limit_of_positive limit) cut,
        )
        refl
