-- ===== src/Feed/Store/Window.antt =====
-- What `FeedItems` (shared/backend/redis.go) reads from the sorted set of a feed.
use social_ai_backend.Common.{
  ℕ, ◌+◌, ◌≤◌, ◌≡◌, refl, sym, ap, ◌∙◌, inl, inr, Bool, true, not, Option, none, some, List, [],
  ◌∷◌, arith, ltb, leb, ◌==◌, if◌then◌else◌, Bool-cases, length, take, take_all, keep, keep-All,
  All-of_In, Text,
}
use social_ai_backend.Common.Count.{count_if}
use social_ai_backend.Common.Prefix.{take-keep}
use social_ai_backend.Common.Sort.{StrictlySorted}
use social_ai_backend.Feed.Merge.{Item, Cursor, newer, is_set, is_before, before}
use social_ai_backend.Feed.Store.{got, FeedRedis, clip, feed_items}

-- The entries that a page which starts at a cursor may show.
abbrev pub passes : Cursor → Item → Bool
passes c it = if is_set c then is_before c it else true

pub before-eq-keep : (xs : List Item) (c : Cursor) → before xs c ≡ keep (passes c) xs
unfolding before
before-eq-keep xs c = elim (Bool-cases (is_set c)) [
  | inl e ↦ rw (passes, e) refl
  | inr e ↦ rw (passes, e) (sym (keep-All (λ _. true) xs (All-of_In _ xs (λ _ _. refl))))
]

-- A score of at most `max`, where there is a `max`.
abbrev pub at_most : Option ℕ → Item → Bool
at_most none it = true
at_most (some t) it = leb it.created_at t

-- The documented answers for a key that holds a sorted set: members are unique and stand in the order
-- of their scores, those of one score in the order of their names; REV reverses this.
pub record HoldsSet (redis : FeedRedis) (key : Text) (members : List Item) : Type 0 where
  pub ordered : StrictlySorted newer members
  pub z_count_lem :
      (t : ℕ) → redis.z_count key t t ≡ got (count_if (λ it. it.created_at == t) members)
  pub z_range_lem :
      (max : Option ℕ) (n : ℕ) → redis.z_range key max n ≡ got (take n (keep (at_most max) members))

clip-eq-take : (c : Cursor) (n : ℕ) (zs : List Item) → clip c n zs ≡ take n (keep (passes c) zs)
unfolding clip
clip-eq-take c n zs =
    rw (before-eq-keep zs c) (elim (Bool-cases (ltb n (length (keep (passes c) zs)))) [
      | inl e ↦ rw e refl
      | inr e ↦ rw e (sym (take_all n (keep (passes c) zs) (ground (arith, e))))
    ])

keep-keep :
    (p q : Item → Bool)
    → ((x : Item) → p x ≡ true → q x ≡ true)
    → (xs : List Item) → keep p (keep q xs) ≡ keep p xs
keep-keep p q h [] = refl
keep-keep p q h (x ∷ xs) = elim (Bool-cases (p x)) [
  | inl e ↦ rw (h x e, e) (rw (keep-keep p q h xs) refl)
  | inr e ↦ elim (Bool-cases (q x)) [
    | inl f ↦ rw (f, e) (keep-keep p q h xs)
    | inr f ↦ rw (f, e) (keep-keep p q h xs)
  ]
]

count_if-keep :
    (p q r : Item → Bool)
    → ((x : Item) → q x ≡ true → p x ≡ true → r x ≡ true)
    → (xs : List Item) → count_if p (keep q xs) ≤ count_if r xs
unfolding count_if
count_if-keep p q r h [] = omega arith
count_if-keep p q r h (x ∷ xs) = ground (arith, h x, count_if-keep p q r h xs)

is_before-at_most : (c : Cursor) (it : Item) → is_before c it ≡ true → at_most (some c.t) it ≡ true
unfolding is_before
is_before-at_most c it h = ground arith

not_before_tie :
    (c : Cursor) (it : Item)
    → at_most (some c.t) it ≡ true
    → not (is_before c it) ≡ true
    → it.created_at == c.t ≡ true
unfolding is_before
not_before_tie c it h k = ground arith

count_none : (xs : List Item) → count_if (λ x. not true) xs ≤ 0
unfolding count_if
count_none [] = omega arith
count_none (x ∷ xs) = omega (arith, count_none xs)

-- When Redis answers for the key as it documents for a sorted set, `FeedItems` returns the first
-- `count` members after the cursor, however many of them share a score: the extra members that are
-- fetched for the ties at the score of the cursor are enough, and no more than `count` come back.
pub feed_items_lem :
    (redis : FeedRedis) (key : Text) (members : List Item)
    → HoldsSet redis key members
    → (c : Cursor) (count : ℕ) → feed_items redis key c count ≡ got (take count (before members c))
unfolding feed_items
feed_items_lem redis key members h c count = elim (Bool-cases (is_set c)) [
  | inl e ↦
      let low : List Item = keep (at_most (some c.t)) members in
      let ties : ℕ = count_if (λ it. it.created_at == c.t) members in
      let few = count_if-keep _ _ _ (not_before_tie c) members in
      let all = keep-keep (is_before c) (at_most (some c.t)) (is_before-at_most c) members in
      let read : take count (keep (is_before c) (take (count + ties) low))
          ≡ take count (keep (is_before c) members) =
        take-keep (is_before c) count ties low few ∙ ap (take count) all in
      rw (e, h.z_count_lem, h.z_range_lem, clip-eq-take, before-eq-keep members c, passes, e)
        (ap got read)
  | inr e ↦
      let read : take count (keep (λ _. true) (take (count + 0) (keep (λ _. true) members)))
          ≡ take count (keep (λ _. true) members) =
        take-keep (λ _. true) count 0 (keep (λ _. true) members)
          (count_none (keep (λ _. true) members))
        ∙ ap (take count) (keep-keep (λ _. true) (λ _. true) (λ _ h. h) members) in
      rw (e, h.z_range_lem, clip-eq-take, before-eq-keep members c, passes, e) (ap got read)
]
