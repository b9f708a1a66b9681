-- ===== src/Feed/Merge.antt =====
-- shared/feedplan/feedplan.go: `Merge`, `Cursor` and `Before`, the read side of the home feed.
pub mod Order
pub mod Source
pub mod Paging
pub mod Cut
use social_ai_backend.Common.{
  ℕ, zero, suc, ◌+◌, ◌≤◌, ◌<◌, ◌≡◌, ◌≢◌, refl, sym, ap, subst, ◌∙◌, ◌⊎◌, inl, inr, Bool, true,
  false, not, ◌&&◌, ◌||◌, List, [], ◌∷◌, ◌++◌, arith, ltb, ◌==◌, if◌then◌else◌, Bool-cases, length,
  take, All, Pairwise, In, here, there, keep, any, Text, text_eq, text_lt, is_empty,
}
use social_ai_backend.Common.Sort.{sort, Sorted, StrictlySorted, IsStrictWeak}

-- One feed entry: the post, its author and its creation time in unix seconds.
pub record Item : Type 0 where
  pub post_id : Text
  pub author_id : Text
  pub created_at : ℕ

-- The comparison that `Merge` sorts by: newest first, ties by the larger post id.
unfoldable pub newer : Item → Item → Bool
newer i j =
    if not (i.created_at == j.created_at)
    then ltb j.created_at i.created_at
    else text_lt j.post_id i.post_id

-- The variables `seen` and `all` of the two loops.
pub record Gathered : Type 0 where
  pub seen : List Text
  pub all : List Item

unfoldable pub gather_item : Gathered → Item → Gathered
gather_item g it =
    if is_empty it.post_id || any (text_eq it.post_id) g.seen
    then g
    else record { seen = it.post_id ∷ g.seen; all = g.all ++ it ∷ [] }

unfoldable pub gather_list : Gathered → List Item → Gathered
unfolding gather_item
gather_list g [] = g
gather_list g (it ∷ its) = gather_list (gather_item g it) its

unfoldable pub gather : Gathered → List (List Item) → Gathered
unfolding gather_list
gather g [] = g
gather g (l ∷ ls) = gather (gather_list g l) ls

-- `limit` 0 is no limit.
unfoldable pub merge : ℕ → List (List Item) → List Item
unfolding gather
merge limit lists =
    let all = sort newer (gather (record { seen = []; all = [] }) lists).all in
    if ltb 0 limit && ltb limit (length all) then take limit all else all

-- The last item a client saw; the zero cursor, with an empty id, starts from the newest.
pub record Cursor : Type 0 where
  pub t : ℕ
  pub id : Text

abbrev pub is_set : Cursor → Bool
is_set c = not (is_empty c.id)

abbrev pub cursor_of : Item → Cursor
cursor_of it = record { t = it.created_at; id = it.post_id }

-- The condition of `Before`'s loop.
unfoldable pub is_before : Cursor → Item → Bool
is_before c it = ltb it.created_at c.t || (it.created_at == c.t && text_lt it.post_id c.id)

unfoldable pub before : List Item → Cursor → List Item
unfolding is_before
before items c = if not (is_set c) then items else keep (is_before c) items
