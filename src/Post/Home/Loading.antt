-- ===== src/Post/Home/Loading.antt =====
-- What step 4 of `GetHomeFeed` (services/post/service/feed.go) puts on a page: the live posts of its items.
use social_ai_backend.Common.{
  ◌≡◌, refl, sym, ap, subst, ◌∙◌, inl, inr, true, false, Option, some, List, [], ◌∷◌, arith,
  Bool-cases, Option-cases, any, find_first, map, All, All-In, All-of_In, In, here, there, In-cons,
  any-cases, Text, text_eq, text_eq_refl, text_eq→eq,
}
use social_ai_backend.Feed.Merge.{Item}
use social_ai_backend.Post.Live.{Post, is_post, distinct, found_posts}
use social_ai_backend.Post.Home.{put_all, needed, shown}

-- The list holds only posts that a look-up of their id gives.
abbrev pub AreCurrent : (Text → Option Post) → List Post → Type 0
AreCurrent look = All (λ p. look p.post_id ≡ some p)

find_first-cases :
    (id : Text) (m : List Post) {q : Post}
    → find_first (is_post id) m ≡ some q
    → In q m × (id ≡ q.post_id)
find_first-cases id [] h = cc
find_first-cases id (p ∷ m) {q} h = elim (Bool-cases (is_post id p)) [
  | inl e ↦
      let same : p ≡ q = ground (arith, rw e at h) in
      (
        subst (λ r. In r (p ∷ m)) same here,
        subst (λ r. id ≡ r.post_id) same (text_eq→eq id p.post_id e),
      )
  | inr e ↦ let r = find_first-cases id m (rw e at h) in (there r.0, r.1)
]

find_first-of_In :
    (id : Text) (m : List Post) {p : Post}
    → In p m
    → is_post id p ≡ true
    → (q : Post) × (find_first (is_post id) m ≡ some q)
find_first-of_In id [] m h = elim m [ ]
find_first-of_In id (x ∷ xs) {p} m h = elim (Bool-cases (is_post id x)) [
  | inl e ↦ (x, rw e refl)
  | inr e ↦ elim (In-cons m) [
    | inl same ↦ absurd (ground (arith, e, subst (λ r. is_post id r ≡ true) (sym same) h))
    | inr later ↦ rw e (find_first-of_In id xs later h)
  ]
]

pub put_all-All : (P : Post → Type 0) (ps m : List Post) → All P ps → All P m → All P (put_all ps m)
put_all-All P [] m h k = k
put_all-All P (p ∷ ps) m h k = put_all-All P ps (p ∷ m) h.1 (h.0, k)

In-put_all_old : (ps m : List Post) {p : Post} → In p m → In p (put_all ps m)
In-put_all_old [] m k = k
In-put_all_old (q ∷ ps) m k = In-put_all_old ps (q ∷ m) (there k)

In-put_all_new : (ps m : List Post) {p : Post} → In p ps → In p (put_all ps m)
In-put_all_new [] m k = elim k [ ]
In-put_all_new (q ∷ ps) m here = In-put_all_old ps (q ∷ m) here
In-put_all_new (q ∷ ps) m (there k) = In-put_all_new ps (q ∷ m) k

-- An id that was not seen stands among the distinct ones.
In-distinct :
    (seen ids : List Text) {id : Text}
    → In id ids
    → any (text_eq id) seen ≡ false
    → In id (distinct seen ids)
In-distinct seen [] m h = elim m [ ]
In-distinct seen (j ∷ ids) {id} m h = elim (Bool-cases (any (text_eq j) seen)) [
  | inl old ↦ elim (In-cons m) [
    | inl e ↦ absurd (ground (arith, h, subst (λ t. any (text_eq t) seen ≡ true) e old))
    | inr later ↦ rw old (In-distinct seen ids later h)
  ]
  | inr new ↦ rw new (elim (Bool-cases (text_eq id j)) [
    | inl e ↦ subst (λ t. In t (j ∷ distinct (j ∷ seen) ids)) (sym (text_eq→eq id j e)) here
    | inr e ↦ elim (In-cons m) [
      | inl same ↦
          absurd (ground (arith, e, subst (λ t. text_eq id t ≡ true) (sym same) (text_eq_refl id)))
      | inr later ↦ there (In-distinct (j ∷ seen) ids later (rw e h))
    ]
  ])
]

module _ (look : Text → Option Post) where
  In-found_posts :
      (ids : List Text) {id : Text} {p : Post}
      → In id ids
      → look id ≡ some p
      → In p (found_posts look ids)
  In-found_posts [] m h = elim m [ ]
  In-found_posts (j ∷ ids) {p = p} here h = rw (found_posts, h) here
  In-found_posts (j ∷ ids) (there m) h = elim (Option-cases (look j)) [
    | inl e ↦ rw (found_posts, e) (In-found_posts ids m h)
    | inr (q, e) ↦ rw (found_posts, e) (there (In-found_posts ids m h))
  ]

  found_posts-AreCurrent :
      ((id : Text) (p : Post) → look id ≡ some p → p.post_id ≡ id)
      → (ids : List Text) → AreCurrent look (found_posts look ids)
  found_posts-AreCurrent named [] = tt
  found_posts-AreCurrent named (j ∷ ids) = elim (Option-cases (look j)) [
    | inl e ↦ rw (found_posts, e) (found_posts-AreCurrent named ids)
    | inr (q, e) ↦
        rw (found_posts, e)
          (subst (λ t. look t ≡ some q) (sym (named j q e)) e, found_posts-AreCurrent named ids)
  ]

  In-needed :
      (items : List Item) (by_id : List Post) {it : Item}
      → In it items
      → any (is_post it.post_id) by_id ≡ false
      → In it.post_id (needed items by_id)
  In-needed [] by_id m h = elim m [ ]
  In-needed (it ∷ items) by_id here h = rw h here
  In-needed (it ∷ items) by_id (there m) h = elim (Bool-cases (any (is_post it.post_id) by_id)) [
    | inl e ↦ rw e (In-needed items by_id m h)
    | inr e ↦ rw e (there (In-needed items by_id m h))
  ]

  shown-eq-found :
      (items : List Item) (m : List Post)
      → All (λ it. find_first (is_post it.post_id) m ≡ look it.post_id) items
      → shown items m ≡ found_posts look (map (λ it. it.post_id) items)
  shown-eq-found [] m h = refl
  shown-eq-found (it ∷ items) m h = elim (Option-cases (look it.post_id)) [
    | inl e ↦ rw (shown, h.0, found_posts, e) (shown-eq-found items m h.1)
    | inr (p, e) ↦ rw (shown, h.0, found_posts, e) (ap (◌∷◌ p) (shown-eq-found items m h.1))
  ]

  -- With the posts that the page still needs, the map answers like the table for every item.
  pub shown_lem :
      (items : List Item) (by_id : List Post)
      → ((id : Text) (p : Post) → look id ≡ some p → p.post_id ≡ id)
      → AreCurrent look by_id
      → shown items (put_all (found_posts look (distinct [] (needed items by_id))) by_id)
        ≡ found_posts look (map (λ it. it.post_id) items)
  shown_lem items by_id named current = shown-eq-found items whole (All-of_In _ items answers)
    where
      loaded : List Post
      loaded = found_posts look (distinct [] (needed items by_id))

      whole : List Post
      whole = put_all loaded by_id

      all_current : AreCurrent look whole
      all_current =
          put_all-All _ loaded by_id
            (found_posts-AreCurrent named (distinct [] (needed items by_id))) current

      sound : (id : Text) {q : Post} → find_first (is_post id) whole ≡ some q → look id ≡ some q
      sound id {q} h =
          let r = find_first-cases id whole h in
          subst (λ t. look t ≡ some q) (sym r.1) (All-In _ whole all_current r.0)

      held :
          (it : Item) {p : Post}
          → In it items
          → look it.post_id ≡ some p
          → (q : Post) × (find_first (is_post it.post_id) whole ≡ some q)
      held it {p} m h = elim (Bool-cases (any (is_post it.post_id) by_id)) [
        | inl e ↦
            let (q, at, f) = any-cases (is_post it.post_id) by_id e in
            find_first-of_In it.post_id whole (In-put_all_old loaded by_id at) f
        | inr e ↦
            let asked = In-distinct [] (needed items by_id) (In-needed items by_id m e) refl in
            let got_it = In-found_posts (distinct [] (needed items by_id)) asked h in
            find_first-of_In it.post_id whole (In-put_all_new loaded by_id got_it) (
              subst (λ t. text_eq it.post_id t ≡ true) (sym (named it.post_id p h))
                (text_eq_refl it.post_id))
      ]

      answers : (it : Item) → In it items → find_first (is_post it.post_id) whole ≡ look it.post_id
      answers it m = elim (Option-cases (find_first (is_post it.post_id) whole)) [
        | inr (q, e) ↦ e ∙ sym (sound it.post_id e)
        | inl e ↦ elim (Option-cases (look it.post_id)) [
          | inl f ↦ e ∙ sym f
          | inr (p, f) ↦ let (q, g) = held it m f in absurd (ground (arith, e, g))
        ]
      ]
