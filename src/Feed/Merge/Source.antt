-- ===== src/Feed/Merge/Source.antt =====
-- Where the entries of `Merge` (shared/feedplan/feedplan.go) come from.
use social_ai_backend.Common.{
  ◌≡◌, refl, sym, subst, ◌⊎◌, inl, inr, true, false, ◌||◌, List, [], ◌∷◌, ◌++◌, arith, Bool-cases,
  All, All-weaken, In, here, there, In-snoc, In-append_left, In-append_right, any, Text, text_eq,
  is_empty, text_eq→eq,
}
use social_ai_backend.Common.Sort.{sort-In, In-sort}
use social_ai_backend.Feed.Merge.{Item, newer, Gathered, gather_item, gather_list, gather, merge}

-- An entry for the post stands in the list.
abbrev pub HasPost : Text → List Item → Type 0
HasPost s xs = (y : Item) × In y xs × (y.post_id ≡ s)

-- The entry stands in one of the lists.
abbrev pub InSome : Item → List (List Item) → Type 0
InSome x ls = (l : List Item) × In l ls × In x l

gather_item-from :
    (g : Gathered) (it x : Item) → In x (gather_item g it).all → In x g.all ⊎ (it ≡ x)
unfolding gather_item
gather_item-from g it x m =
    elim (Bool-cases (is_empty it.post_id || any (text_eq it.post_id) g.seen)) [
      | inl skip ↦ inl (rw skip at m)
      | inr fresh ↦ In-snoc g.all (rw fresh at m)
    ]

gather_list-from :
    (g : Gathered) (its : List Item) (x : Item)
    → In x (gather_list g its).all
    → In x g.all ⊎ In x its
unfolding gather_list
gather_list-from g [] x m = inl m
gather_list-from g (it ∷ its) x m = elim (gather_list-from (gather_item g it) its x m) [
  | inl first ↦ elim (gather_item-from g it x first) [
    | inl old ↦ inl old
    | inr same ↦ inr (subst (λ y. In x (y ∷ its)) (sym same) here)
  ]
  | inr later ↦ inr (there later)
]

gather-from :
    (g : Gathered) (ls : List (List Item)) (x : Item)
    → In x (gather g ls).all
    → In x g.all ⊎ InSome x ls
unfolding gather
gather-from g [] x m = inl m
gather-from g (l ∷ ls) x m = elim (gather-from (gather_list g l) ls x m) [
  | inl first ↦ elim (gather_list-from g l x first) [
    | inl old ↦ inl old
    | inr new ↦ inr (l, here, new)
  ]
  | inr (k, where_k, new) ↦ inr (k, there where_k, new)
]

-- Every id that the loops have seen has its entry.
abbrev IsCovered : Gathered → Type 0
IsCovered g = All (λ s. HasPost s g.all) g.seen

HasPost-append : (s : Text) (xs ys : List Item) → HasPost s xs → HasPost s (xs ++ ys)
HasPost-append s xs ys (y, m, e) = (y, In-append_left ys m, e)

HasPost-of_any :
    (s : Text) (seen : List Text) (xs : List Item)
    → All (λ t. HasPost t xs) seen
    → any (text_eq s) seen ≡ true
    → HasPost s xs
HasPost-of_any s [] xs c h = absurd (ground (arith, h))
HasPost-of_any s (t ∷ seen) xs c h = elim (Bool-cases (text_eq s t)) [
  | inl e ↦ subst (λ u. HasPost u xs) (sym (text_eq→eq s t e)) c.0
  | inr e ↦ HasPost-of_any s seen xs c.1 (rw e at h)
]

gather_item-IsCovered : (g : Gathered) (it : Item) → IsCovered g → IsCovered (gather_item g it)
unfolding gather_item
gather_item-IsCovered g it c =
    elim (Bool-cases (is_empty it.post_id || any (text_eq it.post_id) g.seen)) [
      | inl skip ↦ rw skip c
      | inr fresh ↦ rw fresh (
        (it, In-append_right g.all here, refl),
        All-weaken _ _ (λ s h. HasPost-append s g.all (it ∷ []) h) g.seen c,
      )
    ]

gather_item-HasPost :
    (g : Gathered) (it : Item)
    → IsCovered g
    → is_empty it.post_id ≡ false
    → HasPost it.post_id (gather_item g it).all
unfolding gather_item
gather_item-HasPost g it c named = elim (Bool-cases (any (text_eq it.post_id) g.seen)) [
  | inl old ↦ rw (named, old) (HasPost-of_any it.post_id g.seen g.all c old)
  | inr new ↦ rw (named, new) (it, In-append_right g.all here, refl)
]

gather_item-grows :
    (g : Gathered) (it : Item) (s : Text) → HasPost s g.all → HasPost s (gather_item g it).all
unfolding gather_item
gather_item-grows g it s h =
    elim (Bool-cases (is_empty it.post_id || any (text_eq it.post_id) g.seen)) [
      | inl skip ↦ rw skip h
      | inr fresh ↦ rw fresh (HasPost-append s g.all (it ∷ []) h)
    ]

gather_list-grows :
    (g : Gathered) (its : List Item) (s : Text)
    → HasPost s g.all
    → HasPost s (gather_list g its).all
unfolding gather_list
gather_list-grows g [] s h = h
gather_list-grows g (it ∷ its) s h =
    gather_list-grows (gather_item g it) its s (gather_item-grows g it s h)

gather-grows :
    (g : Gathered) (ls : List (List Item)) (s : Text)
    → HasPost s g.all
    → HasPost s (gather g ls).all
unfolding gather
gather-grows g [] s h = h
gather-grows g (l ∷ ls) s h = gather-grows (gather_list g l) ls s (gather_list-grows g l s h)

gather_list-IsCovered :
    (g : Gathered) (its : List Item) → IsCovered g → IsCovered (gather_list g its)
unfolding gather_list
gather_list-IsCovered g [] c = c
gather_list-IsCovered g (it ∷ its) c =
    gather_list-IsCovered (gather_item g it) its (gather_item-IsCovered g it c)

gather_list-HasPost :
    (g : Gathered) (its : List Item) (x : Item)
    → IsCovered g
    → In x its
    → is_empty x.post_id ≡ false
    → HasPost x.post_id (gather_list g its).all
unfolding gather_list
gather_list-HasPost g [] x c m named = elim m [ ]
gather_list-HasPost g (x ∷ its) x' c here named =
    gather_list-grows (gather_item g x) its x.post_id (gather_item-HasPost g x c named)
gather_list-HasPost g (it ∷ its) x c (there m) named =
    gather_list-HasPost (gather_item g it) its x (gather_item-IsCovered g it c) m named

gather-HasPost :
    (g : Gathered) (ls : List (List Item)) (l : List Item) (x : Item)
    → IsCovered g
    → In l ls
    → In x l
    → is_empty x.post_id ≡ false
    → HasPost x.post_id (gather g ls).all
unfolding gather
gather-HasPost g [] l x c k m named = elim k [ ]
gather-HasPost g (l ∷ ls) l' x c here m named =
    gather-grows (gather_list g l) ls x.post_id (gather_list-HasPost g l x c m named)
gather-HasPost g (l' ∷ ls) l x c (there k) m named =
    gather-HasPost (gather_list g l') ls l x (gather_list-IsCovered g l' c) k m named

-- Without a limit, every entry of the merged feed is an entry of one of the lists.
pub merge_from : (lists : List (List Item)) (x : Item) → In x (merge 0 lists) → InSome x lists
unfolding merge
merge_from lists x m = elim (gather-from _ lists x (sort-In newer _ m)) [
  | inl none_before ↦ elim none_before [ ]
  | inr found ↦ found
]

-- Without a limit, every post that an entry with a post id of any list names has an entry in the
-- merged feed.
pub merge_keeps :
    (lists : List (List Item)) (l : List Item) (x : Item)
    → is_empty x.post_id ≡ false
    → In l lists
    → In x l
    → HasPost x.post_id (merge 0 lists)
unfolding merge
merge_keeps lists l x named k m =
    let (y, at, e) = gather-HasPost (record { seen = []; all = [] }) lists l x tt k m named in
    (y, In-sort newer _ at, e)
