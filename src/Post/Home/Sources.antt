-- ===== src/Post/Home/Sources.antt =====
-- The posts that `GetHomeFeed` (services/post/service/feed.go) reads from the posts table, as a source of
-- the merge.
use social_ai_backend.Common.{
  ℕ, ◌≤◌, ◌≡◌, refl, sym, ap, ◌∙◌, inl, inr, Bool, true, false, ◌&&◌, some, List, [], ◌∷◌, arith,
  Bool-cases, find_first, keep, map, take, take-map, keep-map, keep-and, All, All-In, All-of_In,
  All-map, Pairwise, Pairwise-keep, Pairwise-map, In, In-cons, In-keep_inv, In-take, Text, text_eq,
  text_eq_refl, text_eq→eq, text_eq_comm, is_empty,
}
use social_ai_backend.Common.Count.{count_if}
use social_ai_backend.Common.Sort.{sort, Sorted, IsStrictWeak, sort-Sorted, sort-Pairwise, sort-In}
use social_ai_backend.Common.Keyset.{sort-keep}
use social_ai_backend.Feed.Merge.{Item, Cursor, newer, is_before}
use social_ai_backend.Feed.Merge.Order.{newer-IsStrictWeak, Distinct, StrictlySorted-of}
use social_ai_backend.Feed.Merge.Cut.{IsSource, window}
use social_ai_backend.Feed.Store.Window.{passes, before-eq-keep}
use social_ai_backend.Post.Tables.{PostRow, has_post_id, is_deleted, is_live}
use social_ai_backend.Post.Live.{Post, scan_post, look_up}
use social_ai_backend.Post.Home.{by_celebrity, is_after, newest_row, select_pulled, item_of}
use social_ai_backend.Post.Home.Loading.{AreCurrent}

-- The entry that a row of the table is read as.
abbrev pub row_item : PostRow → Item
row_item p = item_of (scan_post p)

-- All live posts of some accounts, in the order of the feed.
abbrev pub celebrity_items : List Text → List PostRow → List Item
celebrity_items celebs posts = map row_item (sort newest_row (keep (by_celebrity celebs) posts))

newest_row-IsStrictWeak : IsStrictWeak newest_row
unfolding newest_row newer
newest_row-IsStrictWeak = record {
  asymm = λ p q. newer-IsStrictWeak.asymm (row_item p) (row_item q);
  neg_trans = λ p q r. newer-IsStrictWeak.neg_trans (row_item p) (row_item q) (row_item r);
}

is_after-passes : (c : Cursor) (p : PostRow) → is_after c p ≡ passes c (row_item p)
unfolding is_after is_before
is_after-passes c p = ground arith

map-item_of-scan : (ps : List PostRow) → map item_of (map scan_post ps) ≡ map row_item ps
map-item_of-scan [] = refl
map-item_of-scan (p ∷ ps) = ap (◌∷◌ (row_item p)) (map-item_of-scan ps)

-- The query reads the first entries of its source after the cursor.
pub select_pulled-window :
    (celebs : List Text) (c : Cursor) (k : ℕ) (posts : List PostRow)
    → map item_of (select_pulled celebs c k posts) ≡ window k c (celebrity_items celebs posts)
unfolding select_pulled
select_pulled-window celebs c k posts =
    let rows : List PostRow = sort newest_row (keep (by_celebrity celebs) posts) in
    rw
      (
        keep-and (by_celebrity celebs) (is_after c) posts,
        sort-keep newest_row newest_row-IsStrictWeak (is_after c)
            (keep (by_celebrity celebs) posts),
        map-item_of-scan,
        before-eq-keep,
      )
      (sym (take-map row_item k (keep (is_after c) rows))
        ∙ ap (take k) (sym (keep-map row_item (passes c) (is_after c) (is_after-passes c) rows)))

-- Rows of different posts.
abbrev pub DifferentRows : PostRow → PostRow → Type 0
DifferentRows p q = text_eq p.post_id q.post_id ≡ false

count_if_zero :
    (p : PostRow → Bool) (xs : List PostRow) → count_if p xs ≤ 0 → All (λ x. p x ≡ false) xs
unfolding count_if
count_if_zero p [] h = tt
count_if_zero p (x ∷ xs) h = (ground (arith, h), count_if_zero p xs (omega (arith, h)))

-- The primary key of the table.
pub Pairwise-DifferentRows :
    (posts : List PostRow)
    → ((id : Text) → count_if (has_post_id id) posts ≤ 1)
    → Pairwise DifferentRows posts
unfolding count_if
Pairwise-DifferentRows [] h = tt
Pairwise-DifferentRows (p ∷ posts) h = (
  count_if_zero (has_post_id p.post_id) posts
      (omega (arith, rw (text_eq_refl p.post_id) at (h p.post_id))),
  Pairwise-DifferentRows posts (λ id. omega (arith, h id)),
)

module _ (posts : List PostRow) (unique : (id : Text) → count_if (has_post_id id) posts ≤ 1) where
  pub celebrity_items-IsSource :
      (celebs : List Text)
      → All (λ p. is_empty p.post_id ≡ false) posts
      → IsSource (celebrity_items celebs posts)
  celebrity_items-IsSource celebs named = record {
    ordered = StrictlySorted-of (celebrity_items celebs posts) sorted distinct;
    named = All-map _ row_item rows (All-of_In _ rows (λ p m. All-In _ posts named (in_table m).0));
  }
    where
      mine : List PostRow
      mine = keep (by_celebrity celebs) posts

      rows : List PostRow
      rows = sort newest_row mine

      in_table : {p : PostRow} → In p rows → In p posts × (by_celebrity celebs p ≡ true)
      in_table m = In-keep_inv (by_celebrity celebs) posts (sort-In newest_row mine m)

      sorted : Sorted newer (map row_item rows)
      sorted =
          Pairwise-map (λ x y. newer y x ≡ false) row_item rows
            (unfold newest_row newer in sort-Sorted newest_row newest_row-IsStrictWeak mine)

      distinct : Pairwise Distinct (map row_item rows)
      distinct = Pairwise-map Distinct row_item rows (
          sort-Pairwise newest_row DifferentRows (λ p q h. text_eq_comm q.post_id p.post_id ∙ h)
            mine
            (Pairwise-keep DifferentRows (by_celebrity celebs) posts
              (Pairwise-DifferentRows posts unique)))

  find_first-live :
      (rows : List PostRow) (row : PostRow)
      → Pairwise DifferentRows rows
      → In row rows
      → is_deleted row ≡ false
      → find_first (is_live row.post_id) rows ≡ some row
  find_first-live [] row d m live = elim m [ ]
  find_first-live (x ∷ rows) row d m live = elim (In-cons m) [
    | inl e ↦ rw (e, text_eq_refl row.post_id, live) refl
    | inr later ↦
        let other : has_post_id row.post_id x ≡ false =
          text_eq_comm row.post_id x.post_id ∙ All-In _ rows d.0 later in
        rw other (find_first-live rows row d.1 later live)
  ]

  -- What was pulled is what the table shows for its id.
  pub select_pulled-AreCurrent :
      (celebs : List Text) (c : Cursor) (k : ℕ)
      → AreCurrent (look_up posts) (select_pulled celebs c k posts)
  unfolding select_pulled
  select_pulled-AreCurrent celebs c k = All-map _ scan_post found (All-of_In _ found current)
    where
      kept : List PostRow
      kept = keep (λ p. by_celebrity celebs p && is_after c p) posts

      found : List PostRow
      found = take k (sort newest_row kept)

      live : (p : PostRow) → by_celebrity celebs p && is_after c p ≡ true → is_deleted p ≡ false
      live p h = elim (Bool-cases (is_deleted p)) [
        | inl e ↦ absurd (ground (arith, e, h))
        | inr e ↦ e
      ]

      current : (p : PostRow) → In p found → look_up posts p.post_id ≡ some (scan_post p)
      current p m =
          let (at, h) =
            In-keep_inv _ posts (sort-In newest_row kept (In-take k (sort newest_row kept) m)) in
          rw (look_up, find_first-live posts p (Pairwise-DifferentRows posts unique) at (live p h))
            refl

-- A post that the table shows for an id has this id.
pub look_up-named :
    (posts : List PostRow) (id : Text) (p : Post) → look_up posts id ≡ some p → p.post_id ≡ id
look_up-named [] id p h = cc
look_up-named (x ∷ posts) id p h = elim (Bool-cases (is_live id x)) [
  | inl e ↦
      let same : scan_post x ≡ p = ground (arith, rw (look_up, e) at h) in
      ap (λ (q : Post). q.post_id) (sym same) ∙ sym (text_eq→eq id x.post_id (ground (arith, e)))
  | inr e ↦ look_up-named posts id p (rw (look_up, e) at h)
]
