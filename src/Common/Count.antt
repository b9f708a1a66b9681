-- ===== src/Common/Count.antt =====
-- How many elements of a list pass a test.
use Prim.Native.Nat.{ℕ, ◌+◌, ◌≤◌}
use mathlib.Core.Path.{◌≡◌, refl, ap, ◌∙◌}
use mathlib.Core.Bool.{Bool, true, false}
use mathlib.Core.Logic.{inl, inr}
use mathlib.Core.List.{List, [], ◌∷◌, ◌++◌, map}
use native.Mathlib.Omega.{arith}
use social_ai_backend.Common.Tests.{Bool-cases}
use social_ai_backend.Common.Lists.{keep, any}
use social_ai_backend.Common.Alignment.{Aligned}

abbrev pub one_if : Bool → ℕ
one_if true = 1
one_if false = 0

module _ {ℓ} {A : Type ℓ} where
  unfoldable pub count_if : (A → Bool) → List A → ℕ
  count_if p [] = 0
  count_if p (x ∷ xs) = one_if (p x) + count_if p xs

  pub count_if-append :
      (p : A → Bool) (xs ys : List A) → count_if p (xs ++ ys) ≡ count_if p xs + count_if p ys
  unfolding count_if
  count_if-append p [] ys = omega arith
  count_if-append p (x ∷ xs) ys = omega (arith, count_if-append p xs ys)

  -- One element more at the end.
  pub count_if_snoc :
      (p : A → Bool) (xs : List A) (x : A)
      → count_if p (xs ++ x ∷ []) ≡ count_if p xs + one_if (p x)
  count_if_snoc p xs x = count_if-append p xs (x ∷ []) ∙ ap (◌+◌ (count_if p xs)) (single x)
    where
      single : (y : A) → count_if p (y ∷ []) ≡ one_if (p y)
      single y = unfold count_if in omega arith

  pub count_if-map :
      (p q : A → Bool) (f : A → A)
      → ((a : A) → p (f a) ≡ q a)
      → (xs : List A) → count_if p (map f xs) ≡ count_if q xs
  unfolding count_if
  count_if-map p q f h [] = refl
  count_if-map p q f h (x ∷ xs) = rw (h x, count_if-map p q f h xs) refl

  pub count_if-Aligned :
      (R : A → A → Type 0) (p : A → Bool)
      → ((a b : A) → R a b → p b ≡ p a)
      → (xs ys : List A) → Aligned R xs ys
      → count_if p ys ≡ count_if p xs
  unfolding count_if
  count_if-Aligned R p h [] [] k = refl
  count_if-Aligned R p h [] (y ∷ ys) k = absurd k
  count_if-Aligned R p h (x ∷ xs) [] k = absurd k
  count_if-Aligned R p h (x ∷ xs) (y ∷ ys) k = rw (h x y k.0, count_if-Aligned R p h xs ys k.1) refl

  pub count_if_none : (p : A → Bool) (xs : List A) → any p xs ≡ false → count_if p xs ≡ 0
  unfolding count_if
  count_if_none p [] h = refl
  count_if_none p (x ∷ xs) h = elim (Bool-cases (p x)) [
    | inl e ↦ absurd (ground (arith, e, h))
    | inr e ↦ rw e (omega (arith, count_if_none p xs (rw e at h)))
  ]

  pub count_if-keep-le : (p q : A → Bool) (xs : List A) → count_if p (keep q xs) ≤ count_if p xs
  unfolding count_if
  count_if-keep-le p q [] = omega arith
  count_if-keep-le p q (x ∷ xs) = elim (Bool-cases (q x)) [
    | inl e ↦ rw e (omega (arith, count_if-keep-le p q xs))
    | inr e ↦ rw e (omega (arith, count_if-keep-le p q xs))
  ]

  pub count_if_mono :
      (p q : A → Bool)
      → ((a : A) → one_if (p a) ≤ one_if (q a))
      → (xs : List A) → count_if p xs ≤ count_if q xs
  unfolding count_if
  count_if_mono p q h [] = omega arith
  count_if_mono p q h (x ∷ xs) = omega (arith, h x, count_if_mono p q h xs)
