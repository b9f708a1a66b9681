-- ===== src/Social/Graph.antt =====
-- shared/socialgraph/socialgraph.go: the queries on the follows table of migrations/0001_init.sql.
-- Times are in microseconds, the unit of the database and of the cursors.
use social_ai_backend.Common.{
  ℕ, zero, suc, ◌+◌, ◌-◌, min, Bool, true, false, not, ◌&&◌, ◌||◌, Option, none, some, List, [],
  ◌∷◌, ◌++◌, ltb, leb, ◌==◌, if◌then◌else◌, any, keep, map, length, take, Text, text_eq, text_lt,
  is_empty, Attempt, ok, err, ◌>>◌,
}
use social_ai_backend.Common.Sort.{sort}
use social_ai_backend.Transaction.{Weather, db_call}

-- The errors of the service, `ErrBad` of shared/pagecursor, and `db_error` for any error of the database.
pub data Error : Type 0 where
  cannot_follow_self already_following not_following user_not_found bad_cursor db_error : Error

abbrev pub Result {ℓ} : Type ℓ → Type ℓ
Result A = Attempt Error A

pub record FollowRow : Type 0 where
  pub follower_id : Text
  pub followee_id : Text
  pub created_at : ℕ

-- A row of a follow list.
pub record Entry : Type 0 where
  pub id : Text
  pub at : ℕ

-- The zero cursor, with an empty id, means the first page.
pub record Cursor : Type 0 where
  pub t : ℕ
  pub id : Text

abbrev pub is_set : Cursor → Bool
is_set c = not (is_empty c.id)

abbrev pub cursor_at : Entry → Cursor
cursor_at e = record { t = e.at; id = e.id }

pub record Page : Type 0 where
  pub ids : List Text
  pub next : Option Cursor

-- ORDER BY created_at DESC, user id DESC
unfoldable pub newest : Entry → Entry → Bool
newest e f = if not (e.at == f.at) then ltb f.at e.at else text_lt f.id e.id

-- $2 IS NULL OR (created_at, user id) < ($2, $3)
unfoldable pub is_past : Cursor → Entry → Bool
is_past c e = not (is_set c) || (ltb e.at c.t || (e.at == c.t && text_lt e.id c.id))

unfoldable pub select_page : Cursor → ℕ → List Entry → List Entry
unfolding is_past
select_page c limit entries = take limit (sort newest (keep (is_past c) entries))

-- The loop over the rows, with the number of ids to go and the last row that was appended.
unfoldable pub fill_page : ℕ → Option Entry → List Entry → Page
fill_page left last [] = record { ids = []; next = none }
fill_page zero last (e ∷ es) = record {
  ids = [];
  next = elim last [ none ↦ none | some l ↦ some (cursor_at l) ];
}
fill_page (suc left) last (e ∷ es) =
    let rest = fill_page left (some e) es in record { ids = e.id ∷ rest.ids; next = rest.next }

-- `page`, where `limit` is at least 1.
unfoldable pub page : Cursor → ℕ → List Entry → Page
unfolding select_page fill_page
page c limit entries = fill_page limit none (select_page c (limit + 1) entries)

abbrev pub followers_of : Text → List FollowRow → List Entry
followers_of user rows =
    map (λ r. record { id = r.follower_id; at = r.created_at })
      (keep (λ r. text_eq user r.followee_id) rows)

abbrev pub following_of : Text → List FollowRow → List Entry
following_of user rows =
    map (λ r. record { id = r.followee_id; at = r.created_at })
      (keep (λ r. text_eq user r.follower_id) rows)

unfoldable pub followers : Weather → ℕ → Text → Cursor → ℕ → List FollowRow → Result Page
followers w n user after limit rows = do
  db_call db_error w n
  ok (page after limit (followers_of user rows))

unfoldable pub following : Weather → ℕ → Text → Cursor → ℕ → List FollowRow → Result Page
following w n user after limit rows = do
  db_call db_error w n
  ok (page after limit (following_of user rows))

unfoldable pub follower_count_up_to : Weather → Text → ℕ → List FollowRow → Result ℕ
follower_count_up_to w user max rows = do
  db_call db_error w 0
  ok (length (take max (followers_of user rows)))

-- The order of the rows is not specified; here it is that of the table.
unfoldable pub followed_among : Weather → Text → List Text → List FollowRow → Result (List Text)
followed_among w user [] rows = ok []
followed_among w user (c ∷ cs) rows = do
  db_call db_error w 0
  ok (
      map (λ r. r.followee_id)
        (keep (λ r. text_eq user r.follower_id && any (text_eq r.followee_id) (c ∷ cs)) rows))

-- The loop of `AllFollowers`, with fuel for its rounds, the number of this round and what it read so
-- far; `none` means that the fuel ran out. The table does not change during the loop.
unfoldable pub read_followers :
    Weather → Text → ℕ → List FollowRow → ℕ → ℕ → List Text → Cursor → Option (Result (List Text))
unfolding followers
read_followers w user max rows zero n out cur = none
read_followers w user max rows (suc fuel) n out cur = elim (leb max (length out)) [
  | true ↦ some (ok out)
  | false ↦ elim (followers w n user cur (min 1000 (max - length out)) rows) [
    | err e ↦ some (err e)
    | ok p ↦ elim p.next [
      | none ↦ some (ok (out ++ p.ids))
      | some c ↦ read_followers w user max rows fuel (n + 1) (out ++ p.ids) c
    ]
  ]
]

unfoldable pub all_followers : Weather → Text → ℕ → List FollowRow → Option (Result (List Text))
unfolding read_followers
all_followers w user max rows =
    read_followers w user max rows (max + 1) 0 [] (record { t = 0; id = [] })
