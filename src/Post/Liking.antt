-- ===== src/Post/Liking.antt =====
-- The likes of services/post/service/post.go, their events, and the counts of rows and events.
use social_ai_backend.Common.{
  ℕ, ◌+◌, ◌≤◌, ◌≡◌, sym, subst, inl, inr, true, false, not, ◌&&◌, some, [], ◌∷◌, ◌++◌, arith,
  Bool-cases, any, find_first, keep, Text, text_eq, text_eq→eq, Ensures, Ensures->>=, after,
  found_or_self,
}
use social_ai_backend.Common.Count.{
  count_if, one_if, count_if_snoc, count_if_none, count_if-keep-le,
}
use social_ai_backend.Transaction.{Weather, db_call}
use social_ai_backend.Outbox.Table.{Record}
use social_ai_backend.Post.Tables.{
  Db, LikeRow, ShareRow, Payload, liked, is_live, is_like, insert_like, delete_like, insert_share,
}
use social_ai_backend.Post.Counts.{post_not_found, db_error}
use social_ai_backend.Post.Create.{liked_topic, unix}
use social_ai_backend.Post.Likes.{like_event, like_tx}
use social_ai_backend.Post.Invariant.{IsValid, likes_of}
use social_ai_backend.Post.Growth.{Matches, recorded-IsValid}

abbrev new_like : Text → Text → ℕ → LikeRow
new_like id user now = record { post_id = id; user_id = user; created_at = now }

no_like :
    (db : Db) (id user j u : Text)
    → any (is_like id user) db.likes ≡ false
    → text_eq j id ≡ true
    → text_eq u user ≡ true
    → likes_of j u db ≡ 0
no_like db id user j u fresh e f =
    subst (λ t. likes_of t u db ≡ 0) (sym (text_eq→eq j id e))
      (subst (λ t. likes_of id t db ≡ 0) (sym (text_eq→eq u user f))
        (count_if_none (is_like id user) db.likes fresh))

one_more :
    (db : Db) (id user : Text) (now : ℕ) (j u : Text)
    → count_if (is_like j u) (db.likes ++ new_like id user now ∷ [])
      ≡ likes_of j u db + one_if (text_eq j id && text_eq u user)
one_more db id user now j u = count_if_snoc (is_like j u) db.likes (new_like id user now)

liked-Matches :
    (now : ℕ) (id user owner : Text) (db : Db)
    → any (is_like id user) db.likes ≡ false
    → IsValid db
    → Matches db db.posts
        (db.likes ++ new_like id user now ∷ [])
        (liked (record { post_id = id; liker_id = user; owner_id = owner; created_at = unix now }))
liked-Matches now id user owner db fresh v = record {
  unique = v.unique;
  creation = λ j. omega arith;
  deletion = λ j. omega arith;
  once = λ j u. elim (Bool-cases (text_eq j id)) [
    | inl e ↦ elim (Bool-cases (text_eq u user)) [
      | inl f ↦ ground (arith, one_more db id user now j u, no_like db id user j u fresh e f, e, f)
      | inr f ↦ ground (arith, one_more db id user now j u, v.liked_once j u, e, f)
    ]
    | inr e ↦ ground (arith, one_more db id user now j u, v.liked_once j u, e)
  ];
  like = λ j u. omega (arith, one_more db id user now j u);
}

pub like_tx-IsValid :
    (w : Weather) (now : ℕ) (id user : Text) (db : Db)
    → IsValid db
    → Ensures (λ r. IsValid r.0) (like_tx w now id user db)
unfolding like_tx like_event insert_like
like_tx-IsValid w now id user db v = after _ (db_call db_error w 2) _ (
    Ensures->>= (λ row. find_first (is_live id) db.posts ≡ some row)
      (λ (r : Db × Record Payload). IsValid r.0) _ _
      (found_or_self post_not_found (find_first (is_live id) db.posts))
      (λ row found.
        after (λ (r : Db × Record Payload). IsValid r.0) (db_call db_error w 3) _
          (elim (Bool-cases (any (is_like id user) db.likes)) [
            | inl e ↦ rw e tt
            | inr e ↦ rw e (
                after _ (db_call db_error w 4) _ (
                  recorded-IsValid db db.posts (db.likes ++ new_like id user now ∷ []) id
                    liked_topic id
                    (liked (record {
                      post_id = id;
                      liker_id = user;
                      owner_id = row.user_id;
                      created_at = unix now;
                    }))
                    now v (liked-Matches now id user row.user_id db e v)))
          ])))

-- An unlike leaves fewer likes, or as many.
pub unlike-IsValid :
    (id user : Text) (db : Db)
    → IsValid db
    → IsValid (record db { likes = (delete_like id user db.likes).0 })
unfolding delete_like
unlike-IsValid id user db v = record {
  unique = v.unique;
  created_told = v.created_told;
  deleted_told = v.deleted_told;
  liked_once = λ j u. omega (arith, fewer j u, v.liked_once j u);
  liked_told = λ j u. omega (arith, fewer j u, v.liked_told j u);
}
  where
    fewer :
        (j u : Text)
        → count_if (is_like j u) (keep (λ l. not (is_like id user l)) db.likes) ≤ likes_of j u db
    fewer j u = count_if-keep-le (is_like j u) (λ l. not (is_like id user l)) db.likes

pub share-IsValid : (share : ShareRow) (db : Db) → IsValid db → IsValid (insert_share share db).0
unfolding insert_share
share-IsValid share db v = elim (Bool-cases (any (is_live share.post_id) db.posts)) [
  | inl e ↦ rw e (record {
    unique = v.unique;
    created_told = v.created_told;
    deleted_told = v.deleted_told;
    liked_once = v.liked_once;
    liked_told = v.liked_told;
  })
  | inr e ↦ rw e v
]
