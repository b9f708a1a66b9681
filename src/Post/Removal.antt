-- ===== src/Post/Removal.antt =====
-- `DeletePost` of services/post/service/post.go, with its event, and the counts of rows and events.
use social_ai_backend.Common.{
  ℕ, ◌+◌, ◌≤◌, ◌<◌, ◌≡◌, refl, sym, subst, inl, inr, Bool, true, false, not, ◌&&◌, some, List, [],
  ◌∷◌, arith, if◌then◌else◌, Bool-cases, find_first, Text, text_eq, text_eq→eq, Ensures,
  Ensures->>=, after, refuse, found_or_self,
}
use social_ai_backend.Common.Count.{count_if, one_if, count_if-map, count_if_mono}
use social_ai_backend.Transaction.{Weather, db_call}
use social_ai_backend.Outbox.Table.{Record}
use social_ai_backend.Post.Tables.{
  Db, PostRow, Payload, deleted, has_post_id, is_deleted, update_post, mark_deleted,
}
use social_ai_backend.Post.Counts.{post_not_found, not_post_owner, db_error}
use social_ai_backend.Post.Create.{deleted_topic, unix}
use social_ai_backend.Post.Delete.{remove_post, delete_tx}
use social_ai_backend.Post.Invariant.{IsValid, posts_with, deleted_with}
use social_ai_backend.Post.Growth.{Matches, recorded-IsValid}

deleted_with-le :
    (id : Text) (ps : List PostRow)
    → count_if (λ p. has_post_id id p && is_deleted p) ps ≤ count_if (has_post_id id) ps
deleted_with-le id = count_if_mono _ _ λ p. elim (Bool-cases (has_post_id id p)) [
  | inl e ↦ rw e (one_if-le (is_deleted p))
  | inr e ↦ rw e (omega arith)
]
  where
    one_if-le : (b : Bool) → one_if b ≤ 1
    one_if-le true = omega arith
    one_if-le false = omega arith

-- The first post of an id is not deleted, so there are fewer deleted posts of the id than posts.
live_first :
    (id : Text) (ps : List PostRow) (row : PostRow)
    → find_first (has_post_id id) ps ≡ some row
    → is_deleted row ≡ false
    → count_if (λ p. has_post_id id p && is_deleted p) ps < count_if (has_post_id id) ps
unfolding count_if
live_first id [] row e live = cc
live_first id (p ∷ ps) row e live = elim (Bool-cases (has_post_id id p)) [
  | inl h ↦
      let same : p ≡ row = some_inj (rw h at e) in
      let alive : is_deleted p ≡ false = subst (λ q. is_deleted q ≡ false) (sym same) live in
      rw (h, alive) (omega (arith, deleted_with-le id ps))
  | inr h ↦ rw h (omega (arith, live_first id ps row (rw h at e) live))
]
  where
    some_inj : {a b : PostRow} → some a ≡ some b → a ≡ b
    some_inj q = cc

removed-Matches :
    (now : ℕ) (id : Text) (row : PostRow) (db : Db)
    → find_first (has_post_id id) db.posts ≡ some row
    → is_deleted row ≡ false
    → IsValid db
    → Matches db
        (update_post id (mark_deleted now) db.posts)
        db.likes
        (deleted (record { post_id = id; user_id = row.user_id; deleted_at = unix now }))
removed-Matches now id row db found live v = record {
  unique = λ j. omega (arith, posts_kept j, v.unique j);
  creation = λ j. omega (arith, posts_kept j);
  deletion = λ j. elim (Bool-cases (text_eq j id)) [
    | inl e ↦ rw e (subst Deleted (sym (text_eq→eq j id e)) now_deleted)
    | inr e ↦ rw e (others j e)
  ];
  once = v.liked_once;
  like = λ j user. omega arith;
}
  where
    after_posts : List PostRow
    after_posts = update_post id (mark_deleted now) db.posts

    Deleted : Text → Type 0
    Deleted j =
        count_if (λ p. has_post_id j p && is_deleted p) (update_post id (mark_deleted now) db.posts)
        ≡ deleted_with j db + 1

    posts_kept :
        (j : Text)
        → count_if (has_post_id j) (update_post id (mark_deleted now) db.posts) ≡ posts_with j db
    posts_kept j =
        count_if-map (has_post_id j) (has_post_id j) _
          (λ p. elim (Bool-cases (has_post_id id p)) [ inl e ↦ rw e refl | inr e ↦ rw e refl ])
          db.posts

    all_deleted :
        count_if
          (λ p. has_post_id id p && is_deleted p)
          (update_post id (mark_deleted now) db.posts)
        ≡ posts_with id db
    all_deleted =
        count_if-map (λ p. has_post_id id p && is_deleted p) (has_post_id id) _
          (λ p. elim (Bool-cases (has_post_id id p)) [
            | inl e ↦ rw (e, e) refl
            | inr e ↦ rw (e, e) refl
          ])
          db.posts

    now_deleted : Deleted id
    now_deleted = omega (arith, all_deleted, live_first id db.posts row found live, v.unique id)

    others :
        (j : Text)
        → text_eq j id ≡ false
        → count_if
            (λ p. has_post_id j p && is_deleted p)
            (update_post id (mark_deleted now) db.posts)
          ≡ deleted_with j db + 0
    others j ne =
        let same =
          count_if-map (λ p. has_post_id j p && is_deleted p) (λ p. has_post_id j p && is_deleted p)
            (λ p. if has_post_id id p then mark_deleted now p else p)
            (λ p. elim (Bool-cases (has_post_id id p)) [
              | inl e ↦
                  let other : has_post_id j p ≡ false =
                    subst (λ t. text_eq j t ≡ false) (text_eq→eq id p.post_id e) ne in
                  rw (e, other) refl
              | inr e ↦ rw e refl
            ])
            db.posts in
        omega (arith, same)

pub delete_tx-IsValid :
    (w : Weather) (now : ℕ) (id user : Text) (db : Db)
    → IsValid db
    → Ensures (λ r. IsValid r.0) (delete_tx w now id user db)
unfolding delete_tx remove_post
delete_tx-IsValid w now id user db v = after _ (db_call db_error w 2) _ (
    Ensures->>= (λ row. find_first (has_post_id id) db.posts ≡ some row)
      (λ (r : Db × Record Payload). IsValid r.0) _ _
      (found_or_self post_not_found (find_first (has_post_id id) db.posts))
      (λ row found. elim (Bool-cases (is_deleted row)) [
        | inl e ↦ rw e tt
        | inr live ↦ rw live (
            after _ (refuse (not (text_eq row.user_id user)) not_post_owner) _ (
              after _ (db_call db_error w 3) _ (
                after _ (db_call db_error w 4) _ (
                  recorded-IsValid db (update_post id (mark_deleted now) db.posts) db.likes id
                    deleted_topic row.user_id
                    (deleted
                      (record { post_id = id; user_id = row.user_id; deleted_at = unix now }))
                    now v (removed-Matches now id row db found live v)))))
      ]))
