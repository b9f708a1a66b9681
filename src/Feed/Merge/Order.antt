-- ===== src/Feed/Merge/Order.antt =====
-- The order of what `Merge` (shared/feedplan/feedplan.go) returns.
use social_ai_backend.Common.{
  ℕ, ◌≤◌, ◌≡◌, refl, subst, ◌∙◌, ◌⊎◌, inl, inr, Bool, true, false, ◌||◌, List, [], ◌∷◌, arith, ltb,
  if◌then◌else◌, Bool-cases, length, take, take_all, length-take, All-take, Pairwise-take, All,
  All-append, All-weaken, Pairwise, Pairwise-append, any, Text, text_eq, is_empty, text_eq_comm,
  text_eq→eq, text_lt_asymm, text_lt_trans, text_eq_refl, text_lt_flip, text_lt_neg_trans,
}
use social_ai_backend.Common.Sort.{
  sort, Sorted, StrictlySorted, IsStrictWeak, sort-Sorted, sort-Pairwise, sort-All,
}
use social_ai_backend.Feed.Merge.{Item, newer, Gathered, gather_item, gather_list, gather, merge}

pub newer_asymm : (i j : Item) → newer i j ≡ true → newer j i ≡ false
unfolding newer
newer_asymm i j h = ground (arith, text_lt_asymm j.post_id i.post_id)

pub newer_trans : (i j k : Item) → newer i j ≡ true → newer j k ≡ true → newer i k ≡ true
unfolding newer
newer_trans i j k h l = ground (arith, text_lt_trans k.post_id j.post_id i.post_id)

pub newer_total :
    (i j : Item) → text_eq i.post_id j.post_id ≡ false → newer j i ≡ false → newer i j ≡ true
unfolding newer
newer_total i j d h =
    ground (arith, text_lt_flip i.post_id j.post_id, text_eq→eq i.post_id j.post_id)

newer_neg_trans : (a b c : Item) → newer b a ≡ false → newer c b ≡ false → newer c a ≡ false
unfolding newer
newer_neg_trans a b c h k = ground (arith, text_lt_neg_trans c.post_id b.post_id a.post_id)

pub newer-IsStrictWeak : IsStrictWeak newer
unfolding newer
newer-IsStrictWeak = record { asymm = newer_asymm; neg_trans = newer_neg_trans }

-- Two entries for different posts.
abbrev pub Distinct : Item → Item → Type 0
Distinct i j = text_eq i.post_id j.post_id ≡ false

-- What holds of the loop variables after every round.
record IsGathered (g : Gathered) : Type 0 where
  unique : Pairwise Distinct g.all
  named : All (λ it. is_empty it.post_id ≡ false) g.all
  noted : All (λ it. any (text_eq it.post_id) g.seen ≡ true) g.all

any_of_eq :
    (a b : Text) (seen : List Text)
    → any (text_eq a) seen ≡ true
    → any (text_eq b) seen ≡ false
    → text_eq a b ≡ false
any_of_eq a b seen h k = elim (Bool-cases (text_eq a b)) [
  | inl e ↦ absurd (
      ground
        (arith, text_eq→eq a b e, subst (λ t. any (text_eq t) seen ≡ true) (text_eq→eq a b e) h))
  | inr e ↦ e
]

or_false : {a b : Bool} → a || b ≡ false → (a ≡ false) × (b ≡ false)
or_false {a = true} h = cc
or_false {a = false} h = (refl, h)

any_later :
    (s : Text) (seen : List Text) (it : Item)
    → any (text_eq it.post_id) seen ≡ true
    → any (text_eq it.post_id) (s ∷ seen) ≡ true
any_later s seen it h = ground (arith, h)

gather_item-IsGathered : (g : Gathered) (it : Item) → IsGathered g → IsGathered (gather_item g it)
unfolding gather_item
gather_item-IsGathered g it v =
    elim (Bool-cases (is_empty it.post_id || any (text_eq it.post_id) g.seen)) [
      | inl skip ↦ rw skip v
      | inr fresh ↦ rw fresh (record {
        unique =
            Pairwise-append Distinct g.all (it ∷ []) v.unique (tt, tt)
              (All-weaken _ _
                (λ x h. (any_of_eq x.post_id it.post_id g.seen h (or_false fresh).1, tt)) g.all
                v.noted);
        named = All-append _ g.all (it ∷ []) v.named ((or_false fresh).0, tt);
        noted =
            All-append _ g.all (it ∷ [])
              (All-weaken _ _ (any_later it.post_id g.seen) g.all v.noted)
              (rw (text_eq_refl it.post_id) refl, tt);
      })
    ]

gather_list-IsGathered :
    (g : Gathered) (its : List Item) → IsGathered g → IsGathered (gather_list g its)
unfolding gather_list
gather_list-IsGathered g [] v = v
gather_list-IsGathered g (it ∷ its) v =
    gather_list-IsGathered (gather_item g it) its (gather_item-IsGathered g it v)

gather-IsGathered : (g : Gathered) (ls : List (List Item)) → IsGathered g → IsGathered (gather g ls)
unfolding gather
gather-IsGathered g [] v = v
gather-IsGathered g (l ∷ ls) v =
    gather-IsGathered (gather_list g l) ls (gather_list-IsGathered g l v)

abbrev start : Gathered
start = record { seen = []; all = [] }

start-IsGathered : IsGathered start
start-IsGathered = record { unique = tt; named = tt; noted = tt }

-- A sorted list of entries for different posts is strictly sorted.
pub StrictlySorted-of :
    (xs : List Item) → Sorted newer xs → Pairwise Distinct xs → StrictlySorted newer xs
StrictlySorted-of [] s d = tt
StrictlySorted-of (x ∷ xs) s d = (both xs s.0 d.0, StrictlySorted-of xs s.1 d.1)
  where
    both :
        (ys : List Item)
        → All (λ y. newer y x ≡ false) ys
        → All (Distinct x) ys
        → All (λ y. newer x y ≡ true) ys
    both [] h k = tt
    both (y ∷ ys) h k = (newer_total x y k.0 h.0, both ys h.1 k.1)

Distinct-symm : (i j : Item) → Distinct i j → Distinct j i
Distinct-symm i j d = text_eq_comm j.post_id i.post_id ∙ d

-- The first `limit` of what there is without a limit, which is all of it if `limit` is 0.
pub merge-eq-take :
    (limit : ℕ) (lists : List (List Item))
    → merge limit lists ≡ (if ltb 0 limit then take limit (merge 0 lists) else merge 0 lists)
unfolding merge
merge-eq-take limit lists =
    elim (Bool-cases (ltb limit (length (sort newer (gather start lists).all)))) [
      | inl cut ↦ ground (arith, cut)
      | inr whole ↦ ground (arith, whole, take_all limit (sort newer (gather start lists).all))
    ]

pub merge_whole-StrictlySorted : (lists : List (List Item)) → StrictlySorted newer (merge 0 lists)
unfolding merge
merge_whole-StrictlySorted lists =
    StrictlySorted-of _ (sort-Sorted newer newer-IsStrictWeak (gather start lists).all) (
      sort-Pairwise newer Distinct Distinct-symm _
        (gather-IsGathered start lists start-IsGathered).unique)

merge_whole-Distinct : (lists : List (List Item)) → Pairwise Distinct (merge 0 lists)
unfolding merge
merge_whole-Distinct lists =
    sort-Pairwise newer Distinct Distinct-symm _
      (gather-IsGathered start lists start-IsGathered).unique

merge_whole-named :
    (lists : List (List Item)) → All (λ it. is_empty it.post_id ≡ false) (merge 0 lists)
unfolding merge
merge_whole-named lists = sort-All newer _ _ (gather-IsGathered start lists start-IsGathered).named

-- The merged feed is newest first with ties by the larger post id, holds no post twice and no
-- entry without a post id, and has at most `limit` entries unless `limit` is 0.
pub merge_sorted :
    (limit : ℕ) (lists : List (List Item))
    → StrictlySorted newer (merge limit lists)
      × Pairwise Distinct (merge limit lists)
      × All (λ it. is_empty it.post_id ≡ false) (merge limit lists)
      × ((limit ≡ 0) ⊎ (length (merge limit lists) ≤ limit))
merge_sorted limit lists = elim (Bool-cases (ltb 0 limit)) [
  | inl e ↦
      rw (merge-eq-take limit lists, e)
        (
          Pairwise-take _ limit (merge 0 lists) (merge_whole-StrictlySorted lists),
          Pairwise-take _ limit (merge 0 lists) (merge_whole-Distinct lists),
          All-take _ limit (merge 0 lists) (merge_whole-named lists),
          inr (omega (arith, length-take limit (merge 0 lists))),
        )
  | inr e ↦
      rw (merge-eq-take limit lists, e)
        (
          merge_whole-StrictlySorted lists,
          merge_whole-Distinct lists,
          merge_whole-named lists,
          inl (ground (arith, e)),
        )
]
