-- ===== src/Common/Members.antt =====
-- The members of a list, and what passes a test.
use Prim.Native.Nat.{ℕ, zero, suc}
use mathlib.Core.Path.{◌≡◌, refl, subst}
use mathlib.Core.Bool.{Bool, true}
use mathlib.Core.Logic.{◌⊎◌, inl, inr}
use mathlib.Core.List.{List, [], ◌∷◌, ◌++◌, map}
use social_ai_backend.Common.Tests.{Bool-cases}
use social_ai_backend.Common.Lists.{
  take, keep, any, All-keep, Pairwise, In, here, there, In-cons, In-append,
}

module _ {ℓ} {A : Type ℓ} (p : A → Bool) where
  pub any-In : {a : A} (xs : List A) → In a xs → p a ≡ true → any p xs ≡ true
  any-In [] m h = elim m [ ]
  any-In (x ∷ xs) here h = rw h refl
  any-In (x ∷ xs) (there m) h = elim (Bool-cases (p x)) [
    | inl e ↦ rw e refl
    | inr e ↦ rw e (any-In xs m h)
  ]

module _ {ℓ κ} {A : Type ℓ} {B : Type κ} (f : A → B) where
  pub In-map : {a : A} (xs : List A) → In a xs → In (f a) (map f xs)
  In-map [] m = elim m [ ]
  In-map (x ∷ xs) here = here
  In-map (x ∷ xs) (there m) = there (In-map xs m)

module _ {ℓ} {A : Type ℓ} where
  -- A member of a list with one more element at the end.
  pub In-snoc : {a x : A} (xs : List A) → In a (xs ++ x ∷ []) → In a xs ⊎ (x ≡ a)
  In-snoc {x = x} xs m = elim (In-append xs (x ∷ []) m) [
    | inl old ↦ inl old
    | inr new ↦ elim (In-cons new) [ inl e ↦ inr e | inr nothing ↦ elim nothing [ ] ]
  ]

module _ {ℓ} {A : Type ℓ} where
  pub any-cases : (p : A → Bool) (xs : List A) → any p xs ≡ true → (a : A) × In a xs × (p a ≡ true)
  any-cases p [] h = cc
  any-cases p (x ∷ xs) h = elim (Bool-cases (p x)) [
    | inl e ↦ (x, here, e)
    | inr e ↦ let r = any-cases p xs (rw e at h) in (r.0, there r.1, r.2)
  ]

  pub In-take : (n : ℕ) {a : A} (xs : List A) → In a (take n xs) → In a xs
  In-take zero xs m = elim m [ ]
  In-take (suc n) [] m = elim m [ ]
  In-take (suc n) (x ∷ xs) m = elim (In-cons m) [
    | inl e ↦ subst (λ y. In y (x ∷ xs)) e here
    | inr later ↦ there (In-take n xs later)
  ]

module _ {ℓ κ} {A : Type ℓ} {B : Type κ} (f : A → B) where
  pub In-map_inv : {b : B} (xs : List A) → In b (map f xs) → (a : A) × In a xs × (f a ≡ b)
  In-map_inv [] m = elim m [ ]
  In-map_inv (x ∷ xs) m = elim (In-cons m) [
    | inl e ↦ (x, here, e)
    | inr later ↦ let r = In-map_inv xs later in (r.0, there r.1, r.2)
  ]

module _ {ℓ κ} {A : Type ℓ} (R : A → A → Type κ) where
  pub Pairwise-keep : (p : A → Bool) (xs : List A) → Pairwise R xs → Pairwise R (keep p xs)
  Pairwise-keep p [] h = tt
  Pairwise-keep p (x ∷ xs) h = elim (Bool-cases (p x)) [
    | inl e ↦ rw e (All-keep (R x) p xs h.0, Pairwise-keep p xs h.1)
    | inr e ↦ rw e (Pairwise-keep p xs h.1)
  ]
