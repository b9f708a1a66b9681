-- ===== src/Examples/HomeFeed.antt =====
-- A home feed of a pushed post and of a celebrity's, with the same time, in pages of one post.
use social_ai_backend.Common.{
  ℕ, ◌≤◌, ◌<◌, ◌≡◌, refl, sym, ap, ◌∙◌, inl, inr, ◌&&◌, Option, none, some, List, [], ◌∷◌, arith,
  leb, ◌==◌, Bool-cases, keep, length, take, All, All-In, Text, text_eq, text_eq→eq, text_lt, ok,
}
use social_ai_backend.Common.Count.{count_if}
use social_ai_backend.Common.Int.{pos}
use social_ai_backend.Common.Sort.{sort, insert_sorted}
use social_ai_backend.Transaction.{calm}
use social_ai_backend.Pagecursor.{Format, FormatLaws}
use social_ai_backend.Feed.Merge.{Item, Cursor, newer, merge, before}
use social_ai_backend.Feed.Merge.Source.{InSome}
use social_ai_backend.Feed.Merge.Cut.{Agree}
use social_ai_backend.Feed.Store.{got, FeedRedis, feed_items}
use social_ai_backend.Feed.Store.Window.{at_most, HoldsSet, feed_items_lem}
use social_ai_backend.Social.Graph.{FollowRow, followed_among}
use social_ai_backend.Post.Tables.{PostRow, has_post_id}
use social_ai_backend.Post.Live.{found_posts, look_up}
use social_ai_backend.Post.Home.{home_feed_key, get_home_feed, newest_row}
use social_ai_backend.Post.Home.Sources.{celebrity_items}
use social_ai_backend.Post.Home.Exact.{ids_of, whole_feed}
use social_ai_backend.Post.Home.Reading.{read_pages, home_feed_pages}
use social_ai_backend.Examples.Following.{ann, ben, cat}
use social_ai_backend.Examples.Posting.{stored_row}

-- The time as one symbol, then the id.
abbrev read_cursor : Text → Option Cursor
read_cursor [] = none
read_cursor (t ∷ id) = some (record { t = t; id = id })

abbrev plain : Format Cursor
plain = record {
  marshal = λ c. c.t ∷ c.id;
  unmarshal = λ raw _. read_cursor raw;
  to_base64 = λ b. b;
  from_base64 = λ s. some s;
}

plain_laws : FormatLaws plain
plain_laws = record {
  from_base64-to_base64 = λ b. refl;
  unmarshal-marshal = λ v u. refl;
  is_empty-to_base64 = λ b. refl;
  is_empty-marshal = λ v. refl;
}

-- Two members with one score, and `cat` is a celebrity.
abbrev two_members : List Item
two_members =
    record { post_id = 3 ∷ []; author_id = []; created_at = 5 }
    ∷ record { post_id = 1 ∷ []; author_id = []; created_at = 5 }
    ∷ []

abbrev small_redis : FeedRedis
small_redis = record {
  z_count =
      λ _ lo hi. got (count_if (λ it. leb lo it.created_at && leb it.created_at hi) two_members);
  z_range = λ _ max n. got (take n (keep (at_most max) two_members));
  s_members = λ _. got (cat ∷ []);
}

small_redis-HoldsSet : HoldsSet small_redis (home_feed_key ben) two_members
unfolding count_if newer text_lt
small_redis-HoldsSet = record {
  ordered = ((refl, tt), (tt, tt));
  z_count_lem = λ t. ap got (rw (between t 5) refl);
  z_range_lem = λ max n. refl;
}
  where
    between : (t k : ℕ) → (leb t k && leb k t) ≡ (k == t)
    between t k = ground arith

feed_items_lem_example :
    feed_items small_redis (home_feed_key ben) (record { t = 5; id = 2 ∷ [] }) 1
    ≡ got (take 1 (before two_members (record { t = 5; id = 2 ∷ [] })))
feed_items_lem_example =
    feed_items_lem small_redis (home_feed_key ben) two_members small_redis-HoldsSet
      (record { t = 5; id = 2 ∷ [] }) 1

abbrev row_of : Text → Text → PostRow
row_of id user = record stored_row { post_id = id; user_id = user }

abbrev three_rows : List PostRow
three_rows = row_of (1 ∷ []) ann ∷ row_of (2 ∷ []) cat ∷ row_of (3 ∷ []) ann ∷ []

abbrev ben_follows : List FollowRow
ben_follows = record { follower_id = ben; followee_id = cat; created_at = 1 } ∷ []

ids_unique : (id : Text) → count_if (has_post_id id) three_rows ≤ 1
unfolding count_if text_eq
ids_unique id = elim (Bool-cases (text_eq id (1 ∷ []))) [
  | inl e ↦ rw (text_eq→eq id (1 ∷ []) e) (omega arith)
  | inr e ↦ elim (Bool-cases (text_eq id (2 ∷ []))) [
    | inl f ↦ rw (text_eq→eq id (2 ∷ []) f) (omega arith)
    | inr f ↦ ground (arith, e, f)
  ]
]

one_time : Agree (two_members ∷ celebrity_items (cat ∷ []) three_rows ∷ [])
unfolding sort insert_sorted newest_row text_eq
one_time a b in_a in_b e = at_five a in_a ∙ sym (at_five b in_b)
  where
    at_five :
        (a : Item)
        → InSome a (two_members ∷ celebrity_items (cat ∷ []) three_rows ∷ [])
        → a.created_at ≡ 5
    at_five a (l, at, m) =
        All-In (λ (x : Item). x.created_at ≡ 5) l
          (All-In (All (λ (x : Item). x.created_at ≡ 5)) _ ((refl, (refl, tt)), ((refl, tt), tt))
            at)
          m

three_in_feed : length (whole_feed two_members (cat ∷ []) three_rows) < 4
unfolding merge newer sort insert_sorted newest_row text_eq text_lt
three_in_feed = omega arith

ben_reads_cat : followed_among calm ben (cat ∷ []) ben_follows ≡ ok (cat ∷ [])
unfolding followed_among text_eq
ben_reads_cat = refl

home_feed_pages_example :
    read_pages 4
      (λ cursor. get_home_feed plain small_redis calm ben (pos 1) cursor ben_follows three_rows)
      []
    ≡ found_posts (look_up three_rows) (ids_of (whole_feed two_members (cat ∷ []) three_rows))
home_feed_pages_example =
    home_feed_pages plain small_redis calm ben ben_follows three_rows two_members (cat ∷ [])
      (cat ∷ []) plain_laws small_redis-HoldsSet (refl, (refl, tt)) refl ben_reads_cat (λ n. refl)
      ids_unique (refl, (refl, (refl, tt))) one_time (pos 1) 4 three_in_feed
