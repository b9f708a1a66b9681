-- ===== src/Common/Keyset.antt =====
-- Pages of a sorted list: what the rows after a key are.
use mathlib.Core.Path.{◌≡◌, refl, ap, sym, ◌∙◌}
use mathlib.Core.Bool.{Bool, false}
use mathlib.Core.Logic.{inl, inr}
use mathlib.Core.List.{List, [], ◌∷◌, ◌++◌}
use social_ai_backend.Common.Tests.{if◌then◌else◌, Bool-cases}
use social_ai_backend.Common.Lists.{
  keep, All, All-weaken, Pairwise-across, Pairwise-append_right, keep-append, keep_none, keep-All,
}
use social_ai_backend.Common.Sort.{
  sort, insert_sorted, Sorted, StrictlySorted, IsStrictWeak, sort-Sorted,
}

module _ {ℓ} {A : Type ℓ} (less : A → A → Bool) (w : IsStrictWeak less) where
  -- What stands after an element that `a` comes before stays behind `a`.
  insert_first :
      (a : A) (xs : List A) → All (λ x. less x a ≡ false) xs → insert_sorted less a xs ≡ a ∷ xs
  unfolding insert_sorted
  insert_first a [] h = refl
  insert_first a (x ∷ xs) h = rw h.0 refl

  keep-All_sub : (p : A → Bool) (Q : A → Type 0) (xs : List A) → All Q xs → All Q (keep p xs)
  keep-All_sub p Q [] h = tt
  keep-All_sub p Q (x ∷ xs) h = elim (Bool-cases (p x)) [
    | inl e ↦ rw e (h.0, keep-All_sub p Q xs h.1)
    | inr e ↦ rw e (keep-All_sub p Q xs h.1)
  ]

  keep-insert_sorted :
      (p : A → Bool) (a : A) (xs : List A)
      → Sorted less xs
      → keep p (insert_sorted less a xs)
        ≡ (if p a then insert_sorted less a (keep p xs) else keep p xs)
  unfolding insert_sorted
  keep-insert_sorted p a [] s = elim (Bool-cases (p a)) [ inl e ↦ rw e refl | inr e ↦ rw e refl ]
  keep-insert_sorted p a (x ∷ xs) s = elim (Bool-cases (less x a)) [
    | inl e ↦
        let ih = keep-insert_sorted p a xs s.1 in
        elim (Bool-cases (p x)) [
          | inl f ↦ elim (Bool-cases (p a)) [
            | inl g ↦ rw (e, f, g, e) (ap (◌∷◌ x) (ih ∙ rw g refl))
            | inr g ↦ rw (e, f, g) (ap (◌∷◌ x) (ih ∙ rw g refl))
          ]
          | inr f ↦ rw (e, f) ih
        ]
    | inr e ↦
        let behind : All (λ y. less y a ≡ false) (x ∷ xs) =
          (e, All-weaken _ _ (λ y h. w.neg_trans a x y e h) xs s.0) in
        elim (Bool-cases (p a)) [
          | inl g ↦
              rw (e, g)
                (sym (
                  insert_first a (keep p (x ∷ xs))
                    (keep-All_sub p (λ y. less y a ≡ false) (x ∷ xs) behind)))
          | inr g ↦ rw (e, g) refl
        ]
  ]

  -- A filter before the sort is a filter after it.
  pub sort-keep : (p : A → Bool) (xs : List A) → sort less (keep p xs) ≡ keep p (sort less xs)
  unfolding sort
  sort-keep p [] = refl
  sort-keep p (x ∷ xs) =
      let moved = keep-insert_sorted p x (sort less xs) (sort-Sorted less w xs) in
      elim (Bool-cases (p x)) [
        | inl e ↦ rw e (ap (insert_sorted less x) (sort-keep p xs) ∙ sym (moved ∙ rw e refl))
        | inr e ↦ rw e (sort-keep p xs ∙ sym (moved ∙ rw e refl))
      ]

  -- The elements after one of a strictly sorted list are those that it comes before.
  pub keep_rest :
      (xs ys : List A) (x : A)
      → StrictlySorted less (xs ++ x ∷ ys)
      → less x x ≡ false
      → keep (less x) (xs ++ x ∷ ys) ≡ ys
  keep_rest xs ys x s irrefl =
      keep-append (less x) xs (x ∷ ys)
      ∙ rw
          (
            keep_none (less x) xs
                (All-weaken _ _ (λ y h. w.asymm y x h.0) xs (Pairwise-across _ xs (x ∷ ys) s)),
            irrefl,
          )
          (keep-All (less x) ys (Pairwise-append_right _ xs (x ∷ ys) s).0)
