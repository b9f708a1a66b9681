-- ===== src/Common/Slices.antt =====
-- Prefixes, filters and images of lists, put through one another.
use Prim.Native.Nat.{ℕ, zero, suc, ◌≤◌}
use mathlib.Core.Path.{◌≡◌, refl, ap}
use mathlib.Core.Bool.{Bool, ◌&&◌}
use mathlib.Core.Option.{some}
use mathlib.Core.Logic.{inl, inr}
use mathlib.Core.List.{List, [], ◌∷◌, ◌++◌, map}
use native.Mathlib.Omega.{arith}
use social_ai_backend.Common.Tests.{Bool-cases}
use social_ai_backend.Common.Lists.{length, take, drop, get_elem?, keep, Pairwise, All-map}

module _ {ℓ κ θ} {A : Type ℓ} {B : Type κ} (R : B → B → Type θ) (f : A → B) where
  pub Pairwise-map : (xs : List A) → Pairwise (λ a b. R (f a) (f b)) xs → Pairwise R (map f xs)
  Pairwise-map [] h = tt
  Pairwise-map (x ∷ xs) h = (All-map (R (f x)) f xs h.0, Pairwise-map xs h.1)

module _ {ℓ κ} {A : Type ℓ} {B : Type κ} (f : A → B) where
  pub take-map : (n : ℕ) (xs : List A) → take n (map f xs) ≡ map f (take n xs)
  take-map zero xs = refl
  take-map (suc n) [] = refl
  take-map (suc n) (x ∷ xs) = ap (◌∷◌ (f x)) (take-map n xs)

  pub length-map : (xs : List A) → length (map f xs) ≡ length xs
  length-map [] = refl
  length-map (x ∷ xs) = omega (arith, length-map xs)

  -- A filter behind a map is a filter before it.
  pub keep-map :
      (p : B → Bool) (q : A → Bool)
      → ((a : A) → q a ≡ p (f a))
      → (xs : List A) → keep p (map f xs) ≡ map f (keep q xs)
  keep-map p q h [] = refl
  keep-map p q h (x ∷ xs) = elim (Bool-cases (p (f x))) [
    | inl e ↦ rw (h x, e) (ap (◌∷◌ (f x)) (keep-map p q h xs))
    | inr e ↦ rw (h x, e) (keep-map p q h xs)
  ]

module _ {ℓ} {A : Type ℓ} where
  pub take_nil : (n : ℕ) → take {A = A} n [] ≡ []
  take_nil zero = refl
  take_nil (suc n) = refl

  pub take_shorter : (n m : ℕ) (xs : List A) → n ≤ m → take n (take m xs) ≡ take n xs
  take_shorter zero m xs h = refl
  take_shorter (suc n) zero xs h = absurd (omega arith)
  take_shorter (suc n) (suc m) [] h = refl
  take_shorter (suc n) (suc m) (x ∷ xs) h = ap (◌∷◌ x) (take_shorter n m xs (omega arith))

  pub get_elem?-take :
      (i n : ℕ) (xs : List A) → suc i ≤ n → get_elem? (take n xs) i ≡ get_elem? xs i
  get_elem?-take i zero xs h = absurd (omega arith)
  get_elem?-take i (suc n) [] h = refl
  get_elem?-take zero (suc n) (x ∷ xs) h = refl
  get_elem?-take (suc i) (suc n) (x ∷ xs) h = get_elem?-take i n xs (omega arith)

  -- A list cut behind one of its elements.
  pub cut_behind :
      (i : ℕ) (xs : List A)
      → suc i ≤ length xs
      → (x : A) × (get_elem? xs i ≡ some x)
        × (take (suc i) xs ≡ take i xs ++ x ∷ [])
        × (xs ≡ take i xs ++ x ∷ drop (suc i) xs)
  cut_behind i [] h = absurd (omega arith)
  cut_behind zero (x ∷ xs) h = (x, refl, refl, refl)
  cut_behind (suc i) (x ∷ xs) h =
      let (y, e, f, g) = cut_behind i xs (omega arith) in (y, e, ap (◌∷◌ x) f, ap (◌∷◌ x) g)

  pub keep-and : (p q : A → Bool) (xs : List A) → keep (λ x. p x && q x) xs ≡ keep q (keep p xs)
  keep-and p q [] = refl
  keep-and p q (x ∷ xs) = elim (Bool-cases (p x)) [
    | inr e ↦ rw (e, keep-and p q xs) refl
    | inl e ↦ elim (Bool-cases (q x)) [
      | inl f ↦ rw (e, f) (ap (◌∷◌ x) (keep-and p q xs))
      | inr f ↦ rw (e, f) (keep-and p q xs)
    ]
  ]
