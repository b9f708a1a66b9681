-- ===== src/Common/Prefix.antt =====
-- Prefixes of sorted lists: what a bounded read of each source of a merge may leave out.
use Prim.Native.Nat.{ℕ, zero, suc, ◌+◌, ◌≤◌}
use mathlib.Core.Path.{◌≡◌, refl, ap, sym, subst}
use mathlib.Core.Bool.{Bool, true, false, not}
use mathlib.Core.Logic.{◌⊎◌, inl, inr}
use mathlib.Core.List.{List, [], ◌∷◌}
use native.Mathlib.Omega.{arith}
use social_ai_backend.Common.Tests.{Bool-cases}
use social_ai_backend.Common.Lists.{take, keep, All, In, here, there, In-cons, All-In, All-of_In}
use social_ai_backend.Common.Count.{count_if}
use social_ai_backend.Common.Sort.{StrictlySorted, IsStrictWeak}

module _ {ℓ} {A : Type ℓ} where
  -- The first `n` that pass a test stand among the first `n + k`, where at most `k` fail it.
  pub take-keep :
      (p : A → Bool) (n k : ℕ) (xs : List A)
      → count_if (λ x. not (p x)) xs ≤ k
      → take n (keep p (take (n + k) xs)) ≡ take n (keep p xs)
  unfolding count_if
  take-keep p zero k xs h = refl
  take-keep p (suc n) k [] h = step (suc n + k)
    where
      step : (m : ℕ) → take (suc n) (keep p (take m [])) ≡ []
      step zero = refl
      step (suc m) = refl
  take-keep p (suc n) k (x ∷ xs) h =
      let shift : suc n + k ≡ suc (n + k) = omega arith in
      elim (Bool-cases (p x)) [
        | inl e ↦ rw (shift, e) (ap (◌∷◌ x) (take-keep p n k xs (omega (arith, rw e at h))))
        | inr e ↦ more (λ j. take-keep p (suc n) j xs) k e (rw e at h)
      ]
    where
      more :
          ((j : ℕ)
            → count_if (λ x. not (p x)) xs ≤ j
            → take (suc n) (keep p (take (suc n + j) xs)) ≡ take (suc n) (keep p xs))
          → (k : ℕ) → p x ≡ false
          → 1 + count_if (λ x. not (p x)) xs ≤ k
          → take (suc n) (keep p (take (suc n + k) (x ∷ xs))) ≡ take (suc n) (keep p (x ∷ xs))
      more ih zero e h = absurd (omega arith)
      more ih (suc k) e h =
          let shift : suc n + suc k ≡ suc (suc n + k) = omega arith in
          rw (shift, e) (ih k (omega arith))

module _ {ℓ} {A : Type ℓ} (less : A → A → Bool) (w : IsStrictWeak less)
    (irrefl : (a : A) → less a a ≡ false) where
  -- Nothing in a strictly sorted list comes before its first element.
  not_before_first :
      (f : A) (fs : List A) {z : A}
      → StrictlySorted less (f ∷ fs)
      → In z (f ∷ fs)
      → less z f ≡ false
  not_before_first f fs s m = elim (In-cons m) [
    | inl e ↦ subst (λ z. less z f ≡ false) e (irrefl f)
    | inr later ↦ w.asymm _ _ (All-In _ fs s.0 later)
  ]

  -- An element behind the first one stands in the rest.
  In-rest : (f : A) (fs : List A) {z : A} → less f z ≡ true → In z (f ∷ fs) → In z fs
  In-rest f fs {z} b m = elim (In-cons m) [
    | inl e ↦ absurd (ground (arith, b, subst (λ y. less f y ≡ false) e (irrefl f)))
    | inr later ↦ later
  ]

  count_if-All-false : (p : A → Bool) (xs : List A) → All (λ x. p x ≡ false) xs → count_if p xs ≡ 0
  unfolding count_if
  count_if-All-false p [] h = refl
  count_if-All-false p (x ∷ xs) h = rw h.0 (omega (arith, count_if-All-false p xs h.1))

  -- In the list, or behind at least `k` others of it.
  abbrev pub Near : ℕ → List A → A → Type ℓ
  Near k rs f = In f rs ⊎ (k ≤ count_if (λ r. less r f) rs)

  Near-rest :
      (k : ℕ) (r : A) (rs : List A) (f : A)
      → less r f ≡ true
      → Near (suc k) (r ∷ rs) f
      → Near k rs f
  unfolding count_if
  Near-rest k r rs f b (inl m) = inl (In-rest r rs b m)
  Near-rest k r rs f b (inr h) = inr (omega (arith, rw b at h))

  -- Two strictly sorted lists begin alike, where one lies in the other and what it leaves out comes late.
  pub take-agree :
      (k : ℕ) (rs fs : List A)
      → StrictlySorted less rs
      → StrictlySorted less fs
      → All (λ r. In r fs) rs
      → All (Near k rs) fs
      → take k rs ≡ take k fs
  unfolding count_if
  take-agree zero rs fs sr sf into near = refl
  take-agree (suc k) [] [] sr sf into near = refl
  take-agree (suc k) (r ∷ rs) [] sr sf into near = elim into.0 [ ]
  take-agree (suc k) [] (f ∷ fs) sr sf into near = elim near.0 [
    | inl m ↦ elim m [ ]
    | inr h ↦ absurd (omega arith)
  ]
  take-agree (suc k) (r ∷ rs) (f ∷ fs) sr sf into near = elim near.0 [
    | inl m ↦ elim (In-cons m) [
      | inl e ↦
          let inside : All (λ z. In z fs) rs = All-of_In _ rs (λ z m.
            In-rest f fs (subst (λ y. less y z ≡ true) e (All-In _ rs sr.0 m))
              (All-In (λ y. In y (f ∷ fs)) rs into.1 m)) in
          let close : All (Near k rs) fs = All-of_In _ fs (λ z m.
            Near-rest k r rs z (subst (λ y. less y z ≡ true) (sym e) (All-In _ fs sf.0 m))
              (All-In (Near (suc k) (r ∷ rs)) fs near.1 m)) in
          rw e (ap (◌∷◌ f) (take-agree k rs fs sr.1 sf.1 inside close))
      | inr later ↦ absurd (ground (arith, All-In _ rs sr.0 later, not_before_first f fs sf into.0))
    ]
    | inr h ↦
        let zero_before =
          count_if-All-false (λ z. less z f) (r ∷ rs)
            (All-of_In _ (r ∷ rs) (λ z m.
              not_before_first f fs {z = z} sf (All-In (λ y. In y (f ∷ fs)) (r ∷ rs) into m))) in
        absurd (omega (arith, h, zero_before))
  ]

  -- A member of a strictly sorted list stands among the first `k`, or behind all of them.
  pub Near-take :
      (k : ℕ) (xs : List A) {f : A} → StrictlySorted less xs → In f xs → Near k (take k xs) f
  unfolding count_if
  Near-take zero xs s m = inr (omega arith)
  Near-take (suc k) [] s m = elim m [ ]
  Near-take (suc k) (x ∷ xs) s here = inl here
  Near-take (suc k) (x ∷ xs) {f} s (there m) =
      let behind : less x f ≡ true = All-In _ xs s.0 m in
      elim (Near-take k xs s.1 m) [
        | inl l ↦ inl (there l)
        | inr h ↦ inr (rw behind (omega (arith, h)))
      ]

  -- Of two strictly sorted lists, the one that lies in the other has no more elements with a property.
  pub count_if-within :
      (p : A → Bool) (xs ys : List A)
      → StrictlySorted less xs
      → StrictlySorted less ys
      → All (λ x. In x ys) xs
      → count_if p xs ≤ count_if p ys
  unfolding count_if
  count_if-within p [] ys sx sy into = omega arith
  count_if-within p (x ∷ xs) [] sx sy into = elim into.0 [ ]
  count_if-within p (x ∷ xs) (y ∷ ys) sx sy into = elim (In-cons into.0) [
    | inl e ↦
        let inside : All (λ z. In z ys) xs = All-of_In _ xs (λ z m.
          In-rest y ys (subst (λ v. less v z ≡ true) (sym e) (All-In _ xs sx.0 m))
            (All-In (λ v. In v (y ∷ ys)) xs into.1 m)) in
        rw e (omega (arith, count_if-within p xs ys sx.1 sy.1 inside))
    | inr later ↦
        let inside : All (λ z. In z ys) xs = All-of_In _ xs (λ z m.
          In-rest y ys (less_trans y x z (All-In _ ys sy.0 later) (All-In _ xs sx.0 m))
            (All-In (λ v. In v (y ∷ ys)) xs into.1 m)) in
        omega (arith, count_if-within p (x ∷ xs) ys sx sy.1 (later, inside))
  ]
    where
      less_trans : (a b c : A) → less a b ≡ true → less b c ≡ true → less a c ≡ true
      less_trans a b c h k = elim (Bool-cases (less a c)) [
        | inl e ↦ e
        | inr e ↦ absurd (ground (arith, w.neg_trans b c a (w.asymm b c k) e, h))
      ]
