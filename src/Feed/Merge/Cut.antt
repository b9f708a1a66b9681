-- ===== src/Feed/Merge/Cut.antt =====
-- Merging bounded reads (shared/feedplan/feedplan.go): a page of the merge of the first entries of each
-- source is a page of the merge of the sources.
use social_ai_backend.Common.{
  ℕ, ◌≡◌, refl, sym, ap, subst, ◌∙◌, inl, inr, true, false, List, [], arith, take, map, All, All-In,
  All-of_In, Pairwise-keep, Pairwise-map, Pairwise-take, In, In-keep, In-keep_inv, In-map,
  In-map_inv, In-take, is_empty,
}
use social_ai_backend.Common.Count.{count_if-map}
use social_ai_backend.Common.Sort.{StrictlySorted}
use social_ai_backend.Common.Prefix.{take-agree, Near, Near-take, count_if-within}
use social_ai_backend.Feed.Merge.{Item, Cursor, newer, is_before, before, merge}
use social_ai_backend.Feed.Merge.Order.{newer-IsStrictWeak, merge_whole-StrictlySorted}
use social_ai_backend.Feed.Merge.Source.{InSome, merge_from, merge_keeps}
use social_ai_backend.Feed.Merge.Paging.{newer_irrefl}
use social_ai_backend.Feed.Store.Window.{passes, before-eq-keep}

-- An entry without its author, which the entries that were pushed do not have.
abbrev pub entry : Item → Item
entry it = record it { author_id = [] }

-- The bounded read of a source.
abbrev pub window : ℕ → Cursor → List Item → List Item
window k c xs = take k (before xs c)

-- Entries for one post have one time.
abbrev pub Agree : List (List Item) → Type 0
Agree ls =
    (a b : Item) → InSome a ls → InSome b ls → a.post_id ≡ b.post_id → a.created_at ≡ b.created_at

-- A source in the order of the feed, whose entries all name a post.
pub record IsSource (xs : List Item) : Type 0 where
  pub ordered : StrictlySorted newer xs
  pub named : All (λ it. is_empty it.post_id ≡ false) xs

abbrev paged : Cursor → List (List Item) → List Item
paged c ls = map entry (before (merge 0 ls) c)

In-before :
    (c : Cursor) (xs : List Item) {x : Item} → In x (before xs c) → In x xs × (passes c x ≡ true)
In-before c xs m = In-keep_inv (passes c) xs (subst (In _) (before-eq-keep xs c) m)

In-before_of :
    (c : Cursor) (xs : List Item) {x : Item} → In x xs → passes c x ≡ true → In x (before xs c)
In-before_of c xs m h = subst (In _) (sym (before-eq-keep xs c)) (In-keep (passes c) xs m h)

map-entry-StrictlySorted :
    (xs : List Item) → StrictlySorted newer xs → StrictlySorted newer (map entry xs)
unfolding newer
map-entry-StrictlySorted = Pairwise-map _ entry

before-StrictlySorted :
    (c : Cursor) (xs : List Item) → StrictlySorted newer xs → StrictlySorted newer (before xs c)
before-StrictlySorted c xs s =
    subst (StrictlySorted newer) (sym (before-eq-keep xs c)) (Pairwise-keep _ (passes c) xs s)

paged-StrictlySorted : (c : Cursor) (ls : List (List Item)) → StrictlySorted newer (paged c ls)
paged-StrictlySorted c ls =
    map-entry-StrictlySorted (before (merge 0 ls) c)
      (before-StrictlySorted c (merge 0 ls) (merge_whole-StrictlySorted ls))

-- Two entries of the sources that name the same post are the same but for the author.
same_entry : (a b : Item) → a.post_id ≡ b.post_id → a.created_at ≡ b.created_at → entry a ≡ entry b
same_entry a b e f = ground (arith, e, f)

pub passes-entry : (c : Cursor) (it : Item) → passes c (entry it) ≡ passes c it
unfolding is_before
passes-entry c it = refl

-- An entry of a source after the cursor has its place in the page's list.
In-paged :
    (c : Cursor) (ls : List (List Item)) {l : List Item} {x : Item}
    → Agree ls
    → In l ls
    → In x l
    → is_empty x.post_id ≡ false
    → passes c x ≡ true
    → In (entry x) (paged c ls)
In-paged c ls {l} {x} agree k m named h =
    let (y, at, e) = merge_keeps ls l x named k m in
    let same : entry y ≡ entry x = same_entry y x e (agree y x (merge_from ls y at) (l, k, m) e) in
    let y_passes : passes c y ≡ true =
      sym (passes-entry c y) ∙ ap (passes c) same ∙ passes-entry c x ∙ h in
    subst (λ z. In z (paged c ls)) same
      (In-map entry (before (merge 0 ls) c) (In-before_of c (merge 0 ls) at y_passes))

-- The sources, each with its own order and names.
abbrev pub AreSources : List (List Item) → Type 0
AreSources = All IsSource

abbrev cut : ℕ → Cursor → List (List Item) → List (List Item)
cut k c = map (window k c)

-- What a bounded read holds stands in its source, after the cursor.
In-cut :
    (k : ℕ) (c : Cursor) (ls : List (List Item)) {x : Item}
    → InSome x (cut k c ls)
    → (l : List Item) × In l ls × In x l × (passes c x ≡ true)
In-cut k c ls (l', at, m) =
    let (l, k', e) = In-map_inv (window k c) ls at in
    let r = In-before c l (In-take k (before l c) (subst (In _) (sym e) m)) in (l, k', r.0, r.1)

Agree-cut : (k : ℕ) (c : Cursor) (ls : List (List Item)) → Agree ls → Agree (cut k c ls)
Agree-cut k c ls agree a b m n e =
    let (l, at, i, _) = In-cut k c ls m in
    let (l', at', i', _) = In-cut k c ls n in agree a b (l, at, i) (l', at', i') e

IsSource-named :
    (ls : List (List Item)) {l : List Item} {x : Item}
    → AreSources ls
    → In l ls
    → In x l
    → is_empty x.post_id ≡ false
IsSource-named ls {l} h k m = All-In _ l (All-In IsSource ls h k).named m

newer-entry : (x r : Item) → newer (entry r) (entry x) ≡ newer r x
unfolding newer
newer-entry x r = refl

-- What the page of the bounded reads lists, the page of the sources lists.
paged-into :
    (k : ℕ) (c : Cursor) (ls : List (List Item))
    → AreSources ls
    → Agree ls
    → All (λ r. In r (paged c ls)) (paged c (cut k c ls))
paged-into k c ls sources agree = All-of_In _ (paged c (cut k c ls)) (λ r m.
    let (x, at, e) = In-map_inv entry (before (merge 0 (cut k c ls)) c) m in
    let (l, where_l, in_l, after) =
      In-cut k c ls (merge_from (cut k c ls) x (In-before c (merge 0 (cut k c ls)) at).0) in
    subst (λ z. In z (paged c ls)) e
      (In-paged c ls agree where_l in_l (IsSource-named ls sources where_l in_l) after))

-- An entry of the page of the sources is listed by the bounded reads, or comes behind `k` entries there.
paged-Near :
    (k : ℕ) (c : Cursor) (ls : List (List Item))
    → AreSources ls
    → Agree ls
    → All (Near newer newer-IsStrictWeak newer_irrefl k (paged c (cut k c ls))) (paged c ls)
paged-Near k c ls sources agree = All-of_In _ (paged c ls) (λ f m.
    let (x, at, e) = In-map_inv entry (before (merge 0 ls) c) m in
    let (in_merge, after) = In-before c (merge 0 ls) at in
    let (l, where_l, in_l) = merge_from ls x in_merge in
    subst (Near newer newer-IsStrictWeak newer_irrefl k (paged c (cut k c ls))) e
      (near_one x l where_l in_l after))
  where
    near_one :
        (x : Item) (l : List Item)
        → In l ls
        → In x l
        → passes c x ≡ true
        → Near newer newer-IsStrictWeak newer_irrefl k (paged c (cut k c ls)) (entry x)
    near_one x l where_l in_l after =
        let s = All-In IsSource ls sources where_l in
        let sorted = before-StrictlySorted c l s.ordered in
        let listed : (y : Item) → In y (window k c l) → In (entry y) (paged c (cut k c ls)) = λ y m.
          let r = In-before c l (In-take k (before l c) m) in
          In-paged c (cut k c ls) (Agree-cut k c ls agree) (In-map (window k c) ls where_l) m
            (All-In _ l s.named r.0) r.1 in
        elim (Near-take newer newer-IsStrictWeak newer_irrefl k (before l c) sorted
          (In-before_of c l in_l after)) [
            | inl m ↦ inl (listed x m)
            | inr many ↦ inr (
                omega (
                  arith,
                  many,
                  count_if-map (λ r. newer r (entry x)) (λ r. newer r x) entry (newer-entry x)
                      (window k c l),
                  count_if-within newer newer-IsStrictWeak newer_irrefl (λ r. newer r (entry x))
                      (map entry (window k c l)) (paged c (cut k c ls))
                      (map-entry-StrictlySorted (window k c l)
                        (Pairwise-take _ k (before l c) sorted))
                      (paged-StrictlySorted c (cut k c ls))
                      (All-of_In _ (map entry (window k c l)) (λ z n.
                        let (y, at, e) = In-map_inv entry (window k c l) n in
                        subst (λ v. In v (paged c (cut k c ls))) e (listed y at))),
                ))
          ]

-- When each source is read to `k` entries after the cursor, the first `k` entries of the merge of these
-- reads are those of the merge of the whole sources.
pub merge_cut :
    (k : ℕ) (c : Cursor) (ls : List (List Item))
    → AreSources ls
    → Agree ls
    → take k (map entry (before (merge 0 (map (window k c) ls)) c))
      ≡ take k (map entry (before (merge 0 ls) c))
merge_cut k c ls sources agree =
    take-agree newer newer-IsStrictWeak newer_irrefl k (paged c (cut k c ls)) (paged c ls)
      (paged-StrictlySorted c (cut k c ls)) (paged-StrictlySorted c ls)
      (paged-into k c ls sources agree) (paged-Near k c ls sources agree)
