-- ===== src/Feed/Batches.antt =====
-- shared/feedplan/feedplan.go, `Batches`: follower ids cut into chunks.
use social_ai_backend.Common.{
  ℕ, zero, suc, ◌+◌, ◌-◌, ◌≤◌, ◌<◌, ◌≡◌, ◌≢◌, refl, sym, ap, ◌∙◌, inl, inr, List, [], ◌∷◌, ◌++◌,
  arith, ltb, if◌then◌else◌, Bool-cases, length, take, drop, take-append-drop, take_all, ltb→lt,
  leb, leb→le, leb→gt, min, length-take, length-drop,
}
use social_ai_backend.Common.Int.{ℤ, or_default, or_default_positive}
use mathlib.Core.List.{flatten}
use mathlib.Core.Path.{ap₂}

module _ {ℓ} {A : Type ℓ} where
  -- `if end > len(ids) { end = len(ids) }`, for `end = start + size`.
  chunk_end : List A → ℕ → ℕ → ℕ
  chunk_end ids size start = if ltb (length ids) (start + size) then length ids else start + size

  -- The loop from `start`. A step moves `start` forward, so `len(ids)` rounds are enough.
  batches_from : ℕ → List A → ℕ → ℕ → List (List A)
  unfolding chunk_end
  batches_from zero ids size start = []
  batches_from (suc rounds) ids size start =
      let rest = batches_from rounds ids size (start + size) in
      if ltb start (length ids)
      then take (chunk_end ids size start - start) (drop start ids) ∷ rest
      else []

  unfoldable pub batches : List A → ℤ → List (List A)
  unfolding batches_from
  batches ids size = batches_from (length ids) ids (or_default size 1) 0

  -- A chunk as the loop cuts it is the next `size` ids, or all that are left.
  chunk-eq-take :
      (ids : List A) (size start : ℕ)
      → take (chunk_end ids size start - start) (drop start ids) ≡ take size (drop start ids)
  unfolding chunk_end
  chunk-eq-take ids size start = elim (Bool-cases (ltb (length ids) (start + size))) [
    | inl short ↦ rw short (
        take_all (length ids - start) (drop start ids) (omega (arith, length-drop start ids))
        ∙ sym (
            take_all size (drop start ids)
              (omega (arith, length-drop start ids, ltb→lt (length ids) (start + size) short))))
    | inr full ↦ rw full (ap (λ n. take n (drop start ids)) (omega arith))
  ]

  drop-nil : (n : ℕ) → drop {A = A} n [] ≡ []
  drop-nil zero = refl
  drop-nil (suc n) = refl

  drop-drop : (m n : ℕ) (xs : List A) → drop n (drop m xs) ≡ drop (m + n) xs
  drop-drop zero n xs = ap (λ k. drop k xs) (omega arith)
  drop-drop (suc m) n [] = drop-nil n ∙ sym (drop-nil (suc m + n))
  drop-drop (suc m) n (x ∷ xs) =
      drop-drop m n xs ∙ ap (λ k. drop k (x ∷ xs)) {x = suc (m + n)} (omega arith)

  drop_all : (n : ℕ) (xs : List A) → length xs ≤ n → drop n xs ≡ []
  drop_all zero [] h = refl
  drop_all zero (x ∷ xs) h = absurd (omega arith)
  drop_all (suc n) [] h = refl
  drop_all (suc n) (x ∷ xs) h = drop_all n xs (omega arith)

  batches_from-flatten :
      (rounds : ℕ) (ids : List A) (size start : ℕ)
      → 0 < size
      → length ids ≤ start + rounds
      → flatten (batches_from rounds ids size start) ≡ drop start ids
  unfolding batches_from flatten
  batches_from-flatten zero ids size start pos_size enough = sym (drop_all start ids (omega arith))
  batches_from-flatten (suc rounds) ids size start pos_size enough =
      elim (Bool-cases (ltb start (length ids))) [
        | inl more ↦ rw more (
            ap₂ ◌++◌ (chunk-eq-take ids size start) (
              batches_from-flatten rounds ids size (start + size) pos_size (omega arith)
              ∙ sym (drop-drop start size ids))
            ∙ take-append-drop size (drop start ids))
        | inr done ↦ rw done (sym (drop_all start ids (ground arith)))
      ]

  -- Each chunk has between 1 and `size` elements, and exactly `size` if another one follows.
  abbrev pub IsChunked : ℕ → List (List A) → Type ℓ
  IsChunked size [] = Unit
  IsChunked size (b ∷ bs) =
      (0 < length b) × (length b ≤ size) × (bs ≢ [] → length b ≡ size) × IsChunked size bs

  batches_from-nil :
      (rounds : ℕ) (ids : List A) (size start : ℕ)
      → length ids ≤ start
      → batches_from rounds ids size start ≡ []
  unfolding batches_from
  batches_from-nil zero ids size start h = refl
  batches_from-nil (suc rounds) ids size start h = ground arith

  chunk_length :
      (ids : List A) (size start : ℕ)
      → length (take (chunk_end ids size start - start) (drop start ids))
        ≡ min size (length ids - start)
  chunk_length ids size start =
      rw (chunk-eq-take ids size start)
        (omega (arith, length-take size (drop start ids), length-drop start ids))

  batches_from-IsChunked :
      (rounds : ℕ) (ids : List A) (size start : ℕ)
      → 0 < size
      → IsChunked size (batches_from rounds ids size start)
  unfolding batches_from
  batches_from-IsChunked zero ids size start h = tt
  batches_from-IsChunked (suc rounds) ids size start h =
      elim (Bool-cases (ltb start (length ids))) [
        | inl more ↦ rw more (
          omega (arith, chunk_length ids size start, ltb→lt start (length ids) more),
          omega (arith, chunk_length ids size start),
          full,
          batches_from-IsChunked rounds ids size (start + size) h,
        )
        | inr done ↦ rw done tt
      ]
    where
      full :
          batches_from rounds ids size (start + size) ≢ []
          → length (take (chunk_end ids size start - start) (drop start ids)) ≡ size
      full ne = elim (Bool-cases (leb (length ids) (start + size))) [
        | inl last ↦ absurd (ne (batches_from-nil rounds ids size (start + size) (leb→le _ _ last)))
        | inr more ↦ omega (arith, chunk_length ids size start, leb→gt (length ids) _ more)
      ]

-- The chunks, put together again, are the input in its order.
pub flatten-batches : {A : Type 0} (ids : List A) (size : ℤ) → flatten (batches ids size) ≡ ids
unfolding batches
flatten-batches ids size =
    batches_from-flatten (length ids) ids (or_default size 1) 0
      (or_default_positive size 1 (omega arith)) (omega arith)

-- No chunk is empty or longer than the size in force (1 if the given one is not positive), and
-- only the last chunk may be shorter than it.
pub batches-IsChunked :
    {A : Type 0} (ids : List A) (size : ℤ) → IsChunked (or_default size 1) (batches ids size)
unfolding batches
batches-IsChunked ids size =
    batches_from-IsChunked (length ids) ids (or_default size 1) 0
      (or_default_positive size 1 (omega arith))
