-- ===== src/Post/Live.antt =====
-- services/post/service/store.go: `scanPost` and `livePostsByID`.
use social_ai_backend.Common.{
  ℕ, ◌≡◌, refl, sym, subst, ap, ◌∙◌, inl, inr, Bool, true, false, not, ◌&&◌, Option, none, some,
  List, [], ◌∷◌, if◌then◌else◌, Bool-cases, Option-cases, any, find_first, keep, map, All,
  All-of_In, any-In, Text, text_eq, text_eq_refl, text_eq→eq, text_eq_comm, ok, ◌>>◌,
}
use social_ai_backend.Common.Int.{ℤ}
use social_ai_backend.Transaction.{Weather, db_call}
use social_ai_backend.Post.Tables.{PostRow, has_post_id, is_deleted, is_live}
use social_ai_backend.Post.Counts.{db_error}
use social_ai_backend.Post.Create.{Result, unix}

-- `model.Post` as the API shows it.
pub record Post : Type 0 where
  pub post_id : Text
  pub user_id : Text
  pub message : Text
  pub url : Text
  pub type : Text
  pub deleted : Bool
  pub deleted_at : ℕ
  pub like_count : ℤ
  pub shared_count : ℤ
  pub created_at : ℕ

abbrev pub scan_post : PostRow → Post
scan_post p = record {
  post_id = p.post_id;
  user_id = p.user_id;
  message = p.message;
  url = p.url;
  type = p.type;
  deleted = is_deleted p;
  deleted_at = elim p.deleted_at [ none ↦ 0 | some t ↦ unix t ];
  like_count = p.like_count;
  shared_count = p.share_count;
  created_at = p.created_at;
}

abbrev pub is_post : Text → Post → Bool
is_post id p = text_eq id p.post_id

-- WHERE post_id = ANY($1) AND deleted_at IS NULL
abbrev pub wanted : List Text → PostRow → Bool
wanted ids p = any (λ id. has_post_id id p) ids && not (is_deleted p)

-- The loop over `ids`. The posts found have different ids, so a list of them is the map `byID`.
unfoldable pub pick : List Text → List Post → List Post
pick [] by_id = []
pick (id ∷ ids) by_id = elim (find_first (is_post id) by_id) [
  | none ↦ pick ids by_id
  | some p ↦ p ∷ pick ids (keep (λ q. not (is_post id q)) by_id)
]

unfoldable pub live_posts_by_id : Weather → List Text → List PostRow → Result (List Post)
unfolding pick
live_posts_by_id w [] posts = ok []
live_posts_by_id w (id ∷ ids) posts = do
  db_call db_error w 0
  ok (pick (id ∷ ids) (map scan_post (keep (wanted (id ∷ ids)) posts)))

-- The ids without repetitions, each at its first place.
abbrev pub distinct : List Text → List Text → List Text
distinct seen [] = []
distinct seen (id ∷ ids) =
    let rest = distinct (id ∷ seen) ids in
    if any (text_eq id) seen then distinct seen ids else id ∷ rest

-- The posts that a look-up finds, in the order of the ids.
abbrev pub found_posts : (Text → Option Post) → List Text → List Post
found_posts look [] = []
found_posts look (id ∷ ids) = elim (look id) [
  | none ↦ found_posts look ids
  | some p ↦ p ∷ found_posts look ids
]

abbrev pub look_up : List PostRow → Text → Option Post
look_up posts id = elim (find_first (is_live id) posts) [
  | none ↦ none
  | some p ↦ some (scan_post p)
]

find_first-keep_other :
    (id j : Text) (m : List Post)
    → find_first (is_post j) (keep (λ q. not (is_post id q)) m)
      ≡ (if text_eq j id then none else find_first (is_post j) m)
find_first-keep_other id j [] = elim (Bool-cases (text_eq j id)) [
  | inl e ↦ rw e refl
  | inr e ↦ rw e refl
]
find_first-keep_other id j (p ∷ m) = elim (Bool-cases (is_post id p)) [
  | inl e ↦
      let ih = find_first-keep_other id j m in
      elim (Bool-cases (text_eq j id)) [
        | inl f ↦ rw (e, f) (ih ∙ rw f refl)
        | inr f ↦
            let other : is_post j p ≡ false =
              subst (λ t. text_eq j t ≡ false) (text_eq→eq id p.post_id e) f in
            rw (e, f, other) (ih ∙ rw f refl)
      ]
  | inr e ↦
      let ih = find_first-keep_other id j m in
      elim (Bool-cases (is_post j p)) [
        | inl g ↦
            let differs : text_eq j id ≡ false =
              subst (λ t. text_eq t id ≡ false) (sym (text_eq→eq j p.post_id g))
                (text_eq_comm p.post_id id ∙ e) in
            rw (e, g, differs) refl
        | inr g ↦ rw (e, g) ih
      ]
]

find_first-wanted :
    (ids : List Text) (j : Text) (posts : List PostRow)
    → any (λ id. text_eq id j) ids ≡ true
    → find_first (is_post j) (map scan_post (keep (wanted ids) posts)) ≡ look_up posts j
find_first-wanted ids j [] h = refl
find_first-wanted ids j (p ∷ posts) h = elim (Bool-cases (has_post_id j p)) [
  | inr e ↦ elim (Bool-cases (wanted ids p)) [
    | inl f ↦ rw (f, look_up, e) (find_first-wanted ids j posts h)
    | inr f ↦ rw (f, look_up, e) (find_first-wanted ids j posts h)
  ]
  | inl e ↦
      let asked : any (λ id. has_post_id id p) ids ≡ true =
        subst (λ t. any (λ id. text_eq id t) ids ≡ true) (text_eq→eq j p.post_id e) h in
      elim (Bool-cases (is_deleted p)) [
        | inl f ↦ rw (asked, f, look_up, e) (find_first-wanted ids j posts h)
        | inr f ↦ rw (asked, f, look_up, e) refl
      ]
]

module _ (posts : List PostRow) (all : List Text) where
  -- What the map holds once the ids of `seen` were handled.
  abbrev Holds : List Text → List Post → Type 0
  Holds seen m =
      (j : Text)
      → any (λ id. text_eq id j) all ≡ true
      → find_first (is_post j) m ≡ (if any (text_eq j) seen then none else look_up posts j)

  Holds-missing :
      (id : Text) (seen : List Text) (m : List Post)
      → find_first (is_post id) m ≡ none
      → Holds seen m
      → Holds (id ∷ seen) m
  Holds-missing id seen m e h j k = elim (Bool-cases (text_eq j id)) [
    | inl f ↦ rw f (subst (λ t. find_first (is_post t) m ≡ none) (sym (text_eq→eq j id f)) e)
    | inr f ↦ rw f (h j k)
  ]

  Holds-taken :
      (id : Text) (seen : List Text) (m : List Post)
      → Holds seen m
      → Holds (id ∷ seen) (keep (λ q. not (is_post id q)) m)
  Holds-taken id seen m h j k = elim (Bool-cases (text_eq j id)) [
    | inl f ↦ rw f (find_first-keep_other id j m ∙ rw f refl)
    | inr f ↦ rw f (find_first-keep_other id j m ∙ rw f (h j k))
  ]

  pick-Holds :
      (seen ids : List Text) (m : List Post)
      → All (λ j. any (λ id. text_eq id j) all ≡ true) ids
      → Holds seen m
      → pick ids m ≡ found_posts (look_up posts) (distinct seen ids)
  unfolding pick
  pick-Holds seen [] m k h = refl
  pick-Holds seen (id ∷ ids) m k h = elim (Bool-cases (any (text_eq id) seen)) [
    | inl old ↦
        let none_left : find_first (is_post id) m ≡ none = rw old at (h id k.0) in
        rw (old, pick, none_left) (pick-Holds seen ids m k.1 h)
    | inr new ↦ elim (Option-cases (look_up posts id)) [
      | inl gone ↦
          let none_left : find_first (is_post id) m ≡ none = (rw new at (h id k.0)) ∙ gone in
          rw (new, pick, none_left, found_posts, gone)
            (pick-Holds (id ∷ seen) ids m k.1 (Holds-missing id seen m none_left h))
      | inr (p, there_is) ↦
          let found : find_first (is_post id) m ≡ some p = (rw new at (h id k.0)) ∙ there_is in
          rw (new, pick, found, found_posts, there_is)
            (ap (◌∷◌ p) (
              pick-Holds (id ∷ seen) ids (keep (λ q. not (is_post id q)) m) k.1
                (Holds-taken id seen m h)))
    ]
  ]

-- The posts of a ranking: when the database answers, `livePostsByID` returns, for each of the ids at its
-- first place and in their order, the post with this id that is not deleted, and nothing where there is
-- none.
pub live_posts_by_id_lem :
    (w : Weather) (ids : List Text) (posts : List PostRow)
    → w.fails 0 ≡ false
    → live_posts_by_id w ids posts ≡ ok (found_posts (look_up posts) (distinct [] ids))
unfolding live_posts_by_id
live_posts_by_id_lem w [] posts calm = refl
live_posts_by_id_lem w (id ∷ ids) posts calm = rw calm (
    ap ok (
      pick-Holds posts (id ∷ ids) [] (id ∷ ids) _ asked
        (λ j. find_first-wanted (id ∷ ids) j posts)))
  where
    asked : All (λ j. any (λ i. text_eq i j) (id ∷ ids) ≡ true) (id ∷ ids)
    asked = All-of_In _ (id ∷ ids) (λ j m. any-In (λ i. text_eq i j) (id ∷ ids) m (text_eq_refl j))
