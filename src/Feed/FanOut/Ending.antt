-- ===== src/Feed/FanOut/Ending.antt =====
-- The end of `FanOut` (shared/feedplan/feedplan.go): it neither waits for ever nor runs for ever.
use social_ai_backend.Common.{
  ℕ, zero, suc, ◌+◌, ◌*◌, ◌<◌, ◌≡◌, refl, ap, ◌⊎◌, inl, inr, true, List, [], ◌∷◌, ◌++◌, arith,
  length, length-append, Text,
}
use social_ai_backend.Feed.FanOut.{
  Run, Step, starts, succeeds, fails, cancels, Reach, launched, next, IsFinished,
}

one_less : (xs ys : List (List Text)) (b : List Text) → length (xs ++ ys) < length (xs ++ b ∷ ys)
one_less xs ys b = omega (arith, length-append xs (b ∷ ys), length-append xs ys)

module _ {E : Type 0} where
  -- What is left to do: two steps for a batch that waits, one for a batch that runs.
  abbrev pub left : Run E → ℕ
  left r = 2 * length r.waiting + length r.in_flight

  -- What a fan-out that is underway has before it. It can be finished by steps of its goroutines and of its
  -- loop; and each of its steps lowers what is left to do, or is a cancellation.
  pub record Ends (n : ℕ) (r : Run E) : Type 0 where
    pub finishes : (s : Run E) × Reach n r s × IsFinished s × (s.cancelled ≡ r.cancelled)
    pub lowers : {s : Run E} → Step n r s → (left s < left r) ⊎ (s ≡ record r { cancelled = true })

  Reach-trans : (n : ℕ) {r s t : Run E} → Reach n r s → Reach n s t → Reach n r t
  Reach-trans n a launched = a
  Reach-trans n a (next b st) = next (Reach-trans n a b) st

  Step-lowers :
      (n : ℕ) {r s : Run E} → Step n r s → (left s < left r) ⊎ (s ≡ record r { cancelled = true })
  Step-lowers n (starts b bs e room) = inl (omega (arith, ap length e))
  Step-lowers n (succeeds xs ys b e) = inl (omega (arith, ap length e, one_less xs ys b))
  Step-lowers n (fails xs ys b part err e within) =
      inl (omega (arith, ap length e, one_less xs ys b))
  Step-lowers n cancels = inr refl

  -- A fan-out with room for a batch: it is over, or the next batch starts, or one that runs succeeds.
  run_on :
      (n fuel : ℕ) (waiting in_flight : List (List Text)) (r : Run E)
      → 0 < n
      → r.waiting ≡ waiting
      → r.in_flight ≡ in_flight
      → left r < fuel
      → (s : Run E) × Reach n r s × IsFinished s × (s.cancelled ≡ r.cancelled)
  run_on n zero waiting in_flight r room e f enough = absurd (omega arith)
  run_on n (suc fuel) [] [] r room e f enough =
      (r, launched, record { loop_done = inl e; waited = f }, refl)
  run_on n (suc fuel) waiting (b ∷ bs) r room e f enough =
      let (s, reach, done, kept) =
        run_on n fuel waiting bs
          (record r { in_flight = bs; trips = r.trips + 1; written = b ++ r.written }) room e refl
          (omega (arith, ap length f)) in
      (s, Reach-trans n (next launched (succeeds [] bs b f)) reach, done, kept)
  run_on n (suc fuel) (b ∷ bs) [] r room e f enough =
      let (s, reach, done, kept) =
        run_on n fuel bs (b ∷ []) (record r { waiting = bs; in_flight = b ∷ r.in_flight }) room refl
          (ap (◌∷◌ b) f) (omega (arith, ap length e, ap length f)) in
      (
        s,
        Reach-trans n (next launched (starts b bs e (omega (arith, ap length f)))) reach,
        done,
        kept,
      )

  pub run-Ends : (n : ℕ) (r : Run E) → 0 < n → Ends n r
  run-Ends n r room = record {
    finishes = run_on n (left r + 1) r.waiting r.in_flight r room refl refl (omega arith);
    lowers = Step-lowers n;
  }
