-- ===== src/Common/Sort.antt =====
-- `sort.Slice` and `sort.SliceStable` of the standard library, as a stable insertion sort by a
-- Boolean "comes before", with the facts that callers rely on.
use Prim.Native.Nat.{suc}
use mathlib.Core.Path.{◌≡◌, refl}
use mathlib.Core.Bool.{Bool, true, false}
use mathlib.Core.Logic.{inl, inr}
use mathlib.Core.List.{List, [], ◌∷◌}
use mathlib.Core.List.Perm
use mathlib.Core.List.{Perm}
use native.Mathlib.Omega.{arith}
use social_ai_backend.Common.Tests.{if◌then◌else◌, Bool-cases}
use social_ai_backend.Common.Lists.{
  length, All, Pairwise, In, here, there, All-In, All-of_In, All-weaken,
}

module _ {ℓ} {A : Type ℓ} (less : A → A → Bool) where
  unfoldable pub insert_sorted : A → List A → List A
  insert_sorted a [] = a ∷ []
  insert_sorted a (x ∷ xs) =
      let rest = insert_sorted a xs in if less x a then x ∷ rest else a ∷ x ∷ xs

  unfoldable pub sort : List A → List A
  sort [] = []
  sort (x ∷ xs) = insert_sorted x (sort xs)

  pub insert_sorted-perm : (a : A) (xs : List A) → Perm (insert_sorted a xs) (a ∷ xs)
  unfolding insert_sorted
  insert_sorted-perm a [] = Perm.refl (a ∷ [])
  insert_sorted-perm a (x ∷ xs) = elim (Bool-cases (less x a)) [
    | inl e ↦ rw e (Perm.trans (Perm.cons x (insert_sorted-perm a xs)) (Perm.swap a x xs))
    | inr e ↦ rw e (Perm.refl (a ∷ x ∷ xs))
  ]

  pub sort-perm : (xs : List A) → Perm (sort xs) xs
  unfolding sort
  sort-perm [] = Perm.refl []
  sort-perm (x ∷ xs) = Perm.trans (insert_sorted-perm x (sort xs)) (Perm.cons x (sort-perm xs))

  -- Each element comes strictly before all later ones.
  abbrev pub StrictlySorted : List A → Type ℓ
  StrictlySorted = Pairwise (λ x y. less x y ≡ true)

  -- No later element comes before an earlier one.
  abbrev pub Sorted : List A → Type ℓ
  Sorted = Pairwise (λ x y. less y x ≡ false)

  pub insert_sorted-All {κ} :
      (P : A → Type κ) (a : A) (xs : List A) → P a → All P xs → All P (insert_sorted a xs)
  unfolding insert_sorted
  insert_sorted-All P a [] h t = (h, tt)
  insert_sorted-All P a (x ∷ xs) h t = elim (Bool-cases (less x a)) [
    | inl e ↦ rw e (t.0, insert_sorted-All P a xs h t.1)
    | inr e ↦ rw e (h, t)
  ]

  pub sort-All {κ} : (P : A → Type κ) (xs : List A) → All P xs → All P (sort xs)
  unfolding sort
  sort-All P [] h = tt
  sort-All P (x ∷ xs) h = insert_sorted-All P x (sort xs) h.0 (sort-All P xs h.1)

  pub sort-In : {a : A} (xs : List A) → In a (sort xs) → In a xs
  sort-In {a} xs m = All-In (λ y. In y xs) (sort xs) (sort-All _ xs (All-of_In _ xs (λ y k. k))) m

  -- A member stays one when the first two elements change places.
  In-exchange :
      {a x y : A} {ys zs : List A} → (In a (x ∷ ys) → In a zs) → In a (x ∷ y ∷ ys) → In a (y ∷ zs)
  In-exchange f here = there (f here)
  In-exchange f (there here) = here
  In-exchange f (there (there m)) = there (f (there m))

  pub In-insert_sorted : {a : A} (x : A) (xs : List A) → In a (x ∷ xs) → In a (insert_sorted x xs)
  unfolding insert_sorted
  In-insert_sorted x [] m = m
  In-insert_sorted x (y ∷ ys) m = elim (Bool-cases (less y x)) [
    | inl e ↦ rw e (In-exchange (In-insert_sorted x ys) m)
    | inr e ↦ rw e m
  ]

  pub In-sort : {a : A} (xs : List A) → In a xs → In a (sort xs)
  unfolding sort
  In-sort [] m = m
  In-sort (x ∷ xs) here = In-insert_sorted x (sort xs) here
  In-sort (x ∷ xs) (there m) = In-insert_sorted x (sort xs) (there (In-sort xs m))

  pub length-insert_sorted : (x : A) (xs : List A) → length (insert_sorted x xs) ≡ suc (length xs)
  unfolding insert_sorted
  length-insert_sorted x [] = refl
  length-insert_sorted x (y ∷ ys) = ground (arith, length-insert_sorted x ys)

  pub length-sort : (xs : List A) → length (sort xs) ≡ length xs
  unfolding sort
  length-sort [] = refl
  length-sort (x ∷ xs) = omega (arith, length-insert_sorted x (sort xs), length-sort xs)

  -- A symmetric relation among all elements survives the reordering.
  module _ {κ} (R : A → A → Type κ) (symm : (a b : A) → R a b → R b a) where
    insert_sorted-Pairwise :
        (a : A) (xs : List A) → All (R a) xs → Pairwise R xs → Pairwise R (insert_sorted a xs)
    unfolding insert_sorted
    insert_sorted-Pairwise a [] h p = (tt, tt)
    insert_sorted-Pairwise a (x ∷ xs) h p = elim (Bool-cases (less x a)) [
      | inl e ↦
          rw e
            (insert_sorted-All (R x) a xs (symm a x h.0) p.0, insert_sorted-Pairwise a xs h.1 p.1)
      | inr e ↦ rw e (h, p)
    ]

    pub sort-Pairwise : (xs : List A) → Pairwise R xs → Pairwise R (sort xs)
    unfolding sort
    sort-Pairwise [] p = tt
    sort-Pairwise (x ∷ xs) p =
        insert_sorted-Pairwise x (sort xs) (sort-All (R x) xs p.0) (sort-Pairwise xs p.1)

  -- What `sort.Slice` asks of its comparison.
  pub record IsStrictWeak : Type ℓ where
    pub asymm : (a b : A) → less a b ≡ true → less b a ≡ false
    pub neg_trans : (a b c : A) → less b a ≡ false → less c b ≡ false → less c a ≡ false

  module _ (w : IsStrictWeak) where
    insert_sorted-Sorted : (a : A) (xs : List A) → Sorted xs → Sorted (insert_sorted a xs)
    unfolding insert_sorted
    insert_sorted-Sorted a [] s = (tt, tt)
    insert_sorted-Sorted a (x ∷ xs) s = elim (Bool-cases (less x a)) [
      | inl e ↦ rw e (
        insert_sorted-All (λ y. less y x ≡ false) a xs (w.asymm x a e) s.0,
        insert_sorted-Sorted a xs s.1,
      )
      | inr e ↦ rw e ((e, All-weaken _ _ (λ y h. w.neg_trans a x y e h) xs s.0), s)
    ]

    pub sort-Sorted : (xs : List A) → Sorted (sort xs)
    unfolding sort
    sort-Sorted [] = tt
    sort-Sorted (x ∷ xs) = insert_sorted-Sorted x (sort xs) (sort-Sorted xs)
