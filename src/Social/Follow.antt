-- ===== src/Social/Follow.antt =====
-- services/social/service/follow.go: `AddFollow`, `RemoveFollow` and the pages of the two lists. The
-- cursor's text is decoded and encoded by code that is a parameter.
use social_ai_backend.Common.{
  ℕ, Bool, not, ◌&&◌, Option, none, some, List, [], ◌∷◌, ◌++◌, ◌==◌, if◌then◌else◌, any, keep,
  length, Text, text_eq, ok, err, ◌>>=◌, ◌>>◌, refuse, found_or,
}
use social_ai_backend.Common.Int.{ℤ}
use social_ai_backend.Transaction.{Weather, db_call, exec}
use social_ai_backend.Message.Page.{limit_of}
use social_ai_backend.Social.Graph.{
  Error, cannot_follow_self, already_following, not_following, user_not_found, bad_cursor, db_error,
  Result, FollowRow, Cursor, Page, followers, following,
}

-- The follows table, and the users that have signed up.
pub record Db : Type 0 where
  pub users : List Text
  pub follows : List FollowRow

abbrev pub is_follow : Text → Text → FollowRow → Bool
is_follow follower followee r = text_eq follower r.follower_id && text_eq followee r.followee_id

-- INSERT ... ON CONFLICT DO NOTHING, with the number of rows affected.
unfoldable pub insert_follow : Text → Text → ℕ → Db → Db × ℕ
insert_follow follower followee now db =
    if any (is_follow follower followee) db.follows then (db, 0) else (
      record db {
        follows =
            db.follows
            ++ record { follower_id = follower; followee_id = followee; created_at = now } ∷ [];
      },
      1,
    )

unfoldable pub delete_follow : Text → Text → Db → Db × ℕ
delete_follow follower followee db = (
  record db { follows = keep (λ r. not (is_follow follower followee r)) db.follows },
  length (keep (is_follow follower followee) db.follows),
)

-- The id that `FollowID` gives.
abbrev pub follow_id : Text → Text → Text
follow_id follower followee = follower ++ b':' ∷ followee

-- The answer to a statement that affected some number of rows.
unfoldable pub answered {ℓ} : {A : Type ℓ} → Error → A → Db × Result ℕ → Db × Result A
answered none_affected a (db, err e) = (db, err e)
answered none_affected a (db, ok n) = (db, if n == 0 then err none_affected else ok a)

-- The checks before the insertion.
unfoldable pub check_follow : Weather → Text → Text → Db → Result (Unit {0})
check_follow w follower followee db = do
  refuse (text_eq follower followee) cannot_follow_self
  db_call db_error w 0
  refuse (not (any (text_eq followee) db.users)) user_not_found

unfoldable pub add_follow : Weather → ℕ → Text → Text → Db → Db × Result Text
unfolding check_follow answered
add_follow w now follower followee db = elim (check_follow w follower followee db) [
  | err e ↦ (db, err e)
  | ok _ ↦
      answered already_following (follow_id follower followee)
        (exec db_error w 1 (insert_follow follower followee now) db)
]

unfoldable pub remove_follow : Weather → Text → Text → Db → Db × Result (Unit {0})
unfolding answered
remove_follow w follower followee db =
    answered not_following tt (exec db_error w 0 (delete_follow follower followee) db)

pub record FollowPage : Type 0 where
  pub ids : List Text
  pub next_cursor : Text

module _ (decode : Text → Option Cursor) (encode : Cursor → Text) where
  -- `pagecursor.Decode`; an empty text is the first page.
  abbrev pub decode_cursor : Text → Result Cursor
  decode_cursor [] = ok (record { t = 0; id = [] })
  decode_cursor (c ∷ s) = found_or bad_cursor (decode (c ∷ s))

  -- `list`, over the query of one of the two lists.
  unfoldable pub list_page : (Cursor → ℕ → Result Page) → ℤ → Text → Result FollowPage
  list_page query limit cursor = do
    after ← decode_cursor cursor
    p ← query after (limit_of limit 50 200)
    ok (record { ids = p.ids; next_cursor = elim p.next [ none ↦ [] | some c ↦ encode c ] })

  unfoldable pub list_followers : Weather → Text → ℤ → Text → Db → Result FollowPage
  unfolding list_page
  list_followers w user limit cursor db =
      list_page (λ c n. followers w 0 user c n db.follows) limit cursor

  unfoldable pub list_following : Weather → Text → ℤ → Text → Db → Result FollowPage
  unfolding list_page
  list_following w user limit cursor db =
      list_page (λ c n. following w 0 user c n db.follows) limit cursor
