-- ===== src/Common/Alignment.antt =====
-- Lists that agree element by element.
use mathlib.Core.List.{List, [], ◌∷◌, map}
use social_ai_backend.Common.Lists.{In, here, there}

-- Two lists of one length, related place by place.
abbrev pub Aligned {ℓ κ} : {A : Type ℓ} {B : Type κ} → (A → B → Type 0) → List A → List B → Type 0
Aligned R [] [] = Unit
Aligned R [] (y ∷ ys) = ⊥
Aligned R (x ∷ xs) [] = ⊥
Aligned R (x ∷ xs) (y ∷ ys) = R x y × Aligned R xs ys

module _ {ℓ} {A : Type ℓ} (R : A → A → Type 0) where
  pub Aligned-refl : ((a : A) → R a a) → (xs : List A) → Aligned R xs xs
  Aligned-refl r [] = tt
  Aligned-refl r (x ∷ xs) = (r x, Aligned-refl r xs)

  pub Aligned-map : (f : A → A) → ((a : A) → R a (f a)) → (xs : List A) → Aligned R xs (map f xs)
  Aligned-map f h [] = tt
  Aligned-map f h (x ∷ xs) = (h x, Aligned-map f h xs)

module _ {ℓ} {A : Type ℓ} (R Q T : A → A → Type 0) where
  pub Aligned-trans :
      ((a b c : A) → R a b → Q b c → T a c)
      → (xs ys zs : List A) → Aligned R xs ys
      → Aligned Q ys zs
      → Aligned T xs zs
  Aligned-trans f [] [] [] h k = tt
  Aligned-trans f [] [] (z ∷ zs) h k = absurd k
  Aligned-trans f [] (y ∷ ys) zs h k = absurd h
  Aligned-trans f (x ∷ xs) [] zs h k = absurd h
  Aligned-trans f (x ∷ xs) (y ∷ ys) [] h k = absurd k
  Aligned-trans f (x ∷ xs) (y ∷ ys) (z ∷ zs) h k =
      (f x y z h.0 k.0, Aligned-trans f xs ys zs h.1 k.1)

module _ {ℓ} {A : Type ℓ} (R Q : A → A → Type 0) where
  -- A weaker relation, where the left elements may be taken from their list.
  pub Aligned-weaken :
      (xs ys : List A) → ((x y : A) → In x xs → R x y → Q x y) → Aligned R xs ys → Aligned Q xs ys
  Aligned-weaken [] [] f h = tt
  Aligned-weaken [] (y ∷ ys) f h = absurd h
  Aligned-weaken (x ∷ xs) [] f h = absurd h
  Aligned-weaken (x ∷ xs) (y ∷ ys) f h =
      (f x y here h.0, Aligned-weaken xs ys (λ a b m. f a b (there m)) h.1)
