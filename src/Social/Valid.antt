-- ===== src/Social/Valid.antt =====
-- The follows table under `AddFollow` and `RemoveFollow` (services/social/service/follow.go).
use social_ai_backend.Common.{
  ℕ, ◌≡◌, refl, sym, subst, inl, inr, true, false, List, [], ◌∷◌, arith, Bool-cases, Attempt-cases,
  any, All, All-append, All-keep, Pairwise, Pairwise-append, Pairwise-keep, Text, text_eq,
  text_eq→eq, text_eq_comm, ok, err,
}
use social_ai_backend.Transaction.{Weather, exec_keeps}
use social_ai_backend.Social.Graph.{
  Error, already_following, not_following, db_error, Result, FollowRow, followers_of,
}
use social_ai_backend.Social.Order.{Distinct}
use social_ai_backend.Social.Follow.{
  Db, is_follow, insert_follow, delete_follow, follow_id, answered, check_follow, add_follow,
  remove_follow,
}

-- Two rows of different relationships.
abbrev pub Apart : FollowRow → FollowRow → Type 0
Apart r r' = is_follow r.follower_id r.followee_id r' ≡ false

-- Nobody follows anybody twice, or follows themselves.
pub record IsValid (db : Db) : Type 0 where
  pub unique : Pairwise Apart db.follows
  pub no_self : All (λ r. text_eq r.follower_id r.followee_id ≡ false) db.follows

Apart-new :
    (follower followee : Text) (now : ℕ) (rows : List FollowRow)
    → any (is_follow follower followee) rows ≡ false
    → All
        (λ r.
          All
            (Apart r)
            (record { follower_id = follower; followee_id = followee; created_at = now } ∷ []))
        rows
Apart-new follower followee now [] h = tt
Apart-new follower followee now (r ∷ rows) h = elim (Bool-cases (is_follow follower followee r)) [
  | inl e ↦ absurd (ground (arith, e, h))
  | inr e ↦ (
    (rw (text_eq_comm r.follower_id follower, text_eq_comm r.followee_id followee) e, tt),
    Apart-new follower followee now rows (rw e at h),
  )
]

insert_follow-IsValid :
    (follower followee : Text) (now : ℕ) (db : Db)
    → text_eq follower followee ≡ false
    → IsValid db
    → IsValid (insert_follow follower followee now db).0
unfolding insert_follow
insert_follow-IsValid follower followee now db other v =
    elim (Bool-cases (any (is_follow follower followee) db.follows)) [
      | inl e ↦ rw e v
      | inr e ↦ rw e (record {
        unique =
            Pairwise-append Apart db.follows _ v.unique (tt, tt)
              (Apart-new follower followee now db.follows e);
        no_self = All-append _ db.follows _ v.no_self (other, tt);
      })
    ]

delete_follow-IsValid :
    (follower followee : Text) (db : Db)
    → IsValid db
    → IsValid (delete_follow follower followee db).0
unfolding delete_follow
delete_follow-IsValid follower followee db v = record {
  unique = Pairwise-keep Apart _ db.follows v.unique;
  no_self = All-keep _ _ db.follows v.no_self;
}

answered_tables {ℓ} :
    {A : Type ℓ} (e : Error) (a : A) (r : Db × Result ℕ) → (answered e a r).0 ≡ r.0
unfolding answered
answered_tables e a (db, err e') = refl
answered_tables e a (db, ok n) = refl

err_ne_ok : {e : Error} → ¬ ◌≡◌ {A = Result (Unit {0})} (err e) (ok tt)
err_ne_ok q = absurd (cc)

check_follow_other :
    (w : Weather) (follower followee : Text) (db : Db)
    → check_follow w follower followee db ≡ ok tt
    → text_eq follower followee ≡ false
unfolding check_follow
check_follow_other w follower followee db h = elim (Bool-cases (text_eq follower followee)) [
  | inl e ↦ absurd (err_ne_ok (rw e at h))
  | inr e ↦ e
]

add_follow-IsValid :
    (w : Weather) (now : ℕ) (follower followee : Text) (db : Db)
    → IsValid db
    → IsValid (add_follow w now follower followee db).0
unfolding add_follow
add_follow-IsValid w now follower followee db v =
    elim (Attempt-cases (check_follow w follower followee db)) [
      | inr (e, h) ↦ rw (add_follow, h) v
      | inl (tt, h) ↦
          rw (add_follow, h)
            (subst IsValid (sym (answered_tables already_following (follow_id follower followee) _))
              (exec_keeps db_error IsValid w 1 (insert_follow follower followee now) db v (
                insert_follow-IsValid follower followee now db
                  (check_follow_other w follower followee db h) v)))
    ]

-- In any weather, `AddFollow` and `RemoveFollow` keep the table such that nobody follows an account twice
-- and nobody follows themselves.
pub follow_keeps :
    (w : Weather) (now : ℕ) (follower followee : Text) (db : Db)
    → IsValid db
    → IsValid (add_follow w now follower followee db).0
      × IsValid (remove_follow w follower followee db).0
unfolding remove_follow
follow_keeps w now follower followee db v = (
  add_follow-IsValid w now follower followee db v,
  subst IsValid (sym (answered_tables not_following tt _)) (
      exec_keeps db_error IsValid w 0 (delete_follow follower followee) db v
        (delete_follow-IsValid follower followee db v)),
)

later-Distinct :
    (user : Text) (r : FollowRow) (rows : List FollowRow)
    → text_eq user r.followee_id ≡ true
    → All (Apart r) rows
    → All (Distinct (record { id = r.follower_id; at = r.created_at })) (followers_of user rows)
later-Distinct user r [] e k = tt
later-Distinct user r (q ∷ rows) e k = elim (Bool-cases (text_eq user q.followee_id)) [
  | inr f ↦ rw f (later-Distinct user r rows e k.1)
  | inl f ↦
      let same : text_eq r.followee_id q.followee_id ≡ true =
        subst (λ t. text_eq t q.followee_id ≡ true) (text_eq→eq user r.followee_id e) f in
      rw f (ground (arith, k.0, same), later-Distinct user r rows e k.1)
]

-- The followers of a user in such a table have different ids.
pub followers_of-Distinct :
    (user : Text) (rows : List FollowRow)
    → Pairwise Apart rows
    → Pairwise Distinct (followers_of user rows)
followers_of-Distinct user [] h = tt
followers_of-Distinct user (r ∷ rows) h = elim (Bool-cases (text_eq user r.followee_id)) [
  | inr e ↦ rw e (followers_of-Distinct user rows h.1)
  | inl e ↦ rw e (later-Distinct user r rows e h.0, followers_of-Distinct user rows h.1)
]
