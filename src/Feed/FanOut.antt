-- ===== src/Feed/FanOut.antt =====
-- shared/feedplan/feedplan.go: `FanOut`, whose batches run in goroutines of their own, as steps in any order.
pub mod Ending
use social_ai_backend.Common.{
  ℕ, ◌+◌, ◌≤◌, ◌<◌, ◌≡◌, sym, ap, subst, ◌⊎◌, inl, inr, Bool, true, false, Option, none, some, List,
  [], ◌∷◌, ◌++◌, arith, length, length-append, All, All-weaken, All-of_In, All-In, In, here, there,
  In-append, In-append_left, In-append_right, In-cons, Text, Option-cases, Bool-cases,
}
use social_ai_backend.Common.Int.{pos}
use social_ai_backend.Feed.Plan.{Policy, with_defaults}
use social_ai_backend.Feed.Batches.{batches, flatten-batches}
use mathlib.Core.List.{flatten}

-- The local variables of a run: the batches that the loop has not reached, those whose goroutine runs, the
-- round trips and the first error. `written` are the followers whose feeds took the item, and `cancelled`
-- says that the context is done. `E` are the errors, the context's own among them.
pub record Run (E : Type 0) : Type 0 where
  pub waiting : List (List Text)
  pub in_flight : List (List Text)
  pub trips : ℕ
  pub first_err : Option E
  pub written : List Text
  pub cancelled : Bool

In-remove :
    (xs ys : List (List Text)) (b c : List Text) → In c (xs ++ b ∷ ys) → (b ≡ c) ⊎ In c (xs ++ ys)
In-remove xs ys b c m = elim (In-append xs (b ∷ ys) m) [
  | inl left ↦ inr (In-append_left ys left)
  | inr right ↦ elim (In-cons right) [ inl e ↦ inl e | inr later ↦ inr (In-append_right xs later) ]
]

removed_count :
    (xs ys : List (List Text)) (b : List Text) → length (xs ++ b ∷ ys) ≡ length (xs ++ ys) + 1
removed_count xs ys b = omega (arith, length-append xs (b ∷ ys), length-append xs ys)

more_written : (b new old : List Text) → All (λ f. In f old) b → All (λ f. In f (new ++ old)) b
more_written b new old h = All-weaken _ _ (λ f m. In-append_right new m) b h

In-flatten :
    (f : Text) (bs : List (List Text)) → In f (flatten bs) → (b : List Text) × In b bs × In f b
unfolding flatten
In-flatten f [] m = elim m [ ]
In-flatten f (b ∷ bs) m = elim (In-append b (flatten bs) m) [
  | inl now ↦ (b, here, now)
  | inr later ↦ let (c, at, k) = In-flatten f bs later in (c, there at, k)
]

module _ {E : Type 0} where
  abbrev pub launch : Policy → List Text → Run E
  launch p followers = record {
    waiting = batches followers (pos (with_defaults p).batch_size);
    in_flight = [];
    trips = 0;
    first_err = none;
    written = [];
    cancelled = false;
  }

  -- `if err != nil && firstErr == nil`.
  abbrev pub or_first : Option E → E → Option E
  or_first none e = some e
  or_first (some old) e = some old

  module _ (parallelism : ℕ) where
    -- The loop starts a batch when the semaphore has room, also in the round after it looked at the context for
    -- the last time, and with a context that is done it may stop; a batch ends with the writes of all its followers,
    -- or with an error after the writes of some; the context is cancelled.
    pub data Step (r : Run E) : Run E → Type 0 where
      starts :
          (b : List Text) (bs : List (List Text))
          → r.waiting ≡ b ∷ bs
          → length r.in_flight < parallelism
          → Step r (record r { waiting = bs; in_flight = b ∷ r.in_flight })
      succeeds :
          (xs ys : List (List Text)) (b : List Text)
          → r.in_flight ≡ xs ++ b ∷ ys
          → Step r
              (record r { in_flight = xs ++ ys; trips = r.trips + 1; written = b ++ r.written })
      fails :
          (xs ys : List (List Text)) (b some_of_them : List Text) (e : E)
          → r.in_flight ≡ xs ++ b ∷ ys
          → ((f : Text) → In f some_of_them → In f b)
          → Step r (record r {
            in_flight = xs ++ ys;
            trips = r.trips + 1;
            first_err = or_first r.first_err e;
            written = some_of_them ++ r.written;
          })
      cancels : Step r (record r { cancelled = true })

    pub data Reach (r : Run E) : Run E → Type 0 where
      launched : Reach r r
      next : {s t : Run E} → Reach r s → Step s t → Reach r t

  -- The loop is over, and `wg.Wait` returned.
  pub record IsFinished (r : Run E) : Type 0 where
    pub loop_done : (r.waiting ≡ []) ⊎ (r.cancelled ≡ true)
    pub waited : r.in_flight ≡ []

  -- The error that is returned; `ctx_err` is the context's.
  abbrev pub result : E → Run E → Option E
  result ctx_err r = elim r.first_err [
    | some e ↦ some e
    | none ↦ elim r.cancelled [ true ↦ some ctx_err | false ↦ none ]
  ]

  -- While there is no error, every batch waits, runs, or has been written; every round trip is counted.
  record IsAccounted (bs : List (List Text)) (r : Run E) : Type 0 where
    each :
        r.first_err ≡ none
        → (b : List Text) → In b bs
        → In b r.waiting ⊎ (In b r.in_flight ⊎ All (λ f. In f r.written) b)
    counted : r.trips + length r.in_flight + length r.waiting ≡ length bs

  or_first_some : (o : Option E) (e : E) → or_first o e ≡ none → ⊥
  or_first_some none e h = cc
  or_first_some (some old) e h = cc

  Step-IsAccounted :
      (n : ℕ) (bs : List (List Text)) {r s : Run E}
      → Step n r s
      → IsAccounted bs r
      → IsAccounted bs s
  Step-IsAccounted n bs {r} (starts b rest e room) v = record {
    each = λ ok c m. elim (v.each ok c m) [
      | inl waits ↦ elim (In-cons (subst (In c) e waits)) [
        | inl same ↦ inr (inl (subst (λ d. In d (b ∷ r.in_flight)) same here))
        | inr later ↦ inl later
      ]
      | inr (inl runs) ↦ inr (inl (there runs))
      | inr (inr done) ↦ inr (inr done)
    ];
    counted = omega (arith, v.counted, ap length e);
  }
  Step-IsAccounted n bs {r} (succeeds xs ys b e) v = record {
    each = λ ok c m. elim (v.each ok c m) [
      | inl waits ↦ inl waits
      | inr (inl runs) ↦ elim (In-remove xs ys b c (subst (In c) e runs)) [
        | inl same ↦
            inr (inr (All-of_In _ c (λ f k. In-append_left r.written (subst (In f) (sym same) k))))
        | inr left ↦ inr (inl left)
      ]
      | inr (inr done) ↦ inr (inr (more_written c b r.written done))
    ];
    counted = omega (arith, v.counted, ap length e, removed_count xs ys b);
  }
  Step-IsAccounted n bs {r} (fails xs ys b part err e within) v = record {
    each = λ ok. absurd (or_first_some r.first_err err ok);
    counted = omega (arith, v.counted, ap length e, removed_count xs ys b);
  }
  Step-IsAccounted n bs cancels v = record { each = v.each; counted = v.counted }

  Reach-IsAccounted :
      (n : ℕ) (bs : List (List Text)) {r s : Run E}
      → Reach n r s
      → IsAccounted bs r
      → IsAccounted bs s
  Reach-IsAccounted n bs launched v = v
  Reach-IsAccounted n bs (next r st) v = Step-IsAccounted n bs st (Reach-IsAccounted n bs r v)

  Reach-bounded :
      (n : ℕ) {r s : Run E} → Reach n r s → length r.in_flight ≤ n → length s.in_flight ≤ n
  Reach-bounded n launched h = h
  Reach-bounded n (next r st) h = step st (Reach-bounded n r h)
    where
      step : {t u : Run E} → Step n t u → length t.in_flight ≤ n → length u.in_flight ≤ n
      step (starts b rest e room) k = omega arith
      step {t} (succeeds xs ys b e) k = omega (arith, ap length e, removed_count xs ys b)
      step {t} (fails xs ys b part err e within) k =
          omega (arith, ap length e, removed_count xs ys b)
      step cancels k = k

  -- In whatever order the goroutines run and end, no more than `Parallelism` batches are in flight; and a
  -- fan-out that returns no error has written the feed of every follower, with one round trip for each
  -- batch.
  pub fan_out_lem :
      (p : Policy) (followers : List Text) (ctx_err : E) {r : Run E}
      → Reach (with_defaults p).parallelism (launch p followers) r
      → (length r.in_flight ≤ (with_defaults p).parallelism)
        × (IsFinished r
            → result ctx_err r ≡ none
            → All (λ f. In f r.written) followers
              × (r.trips ≡ length (batches followers (pos (with_defaults p).batch_size))))
  fan_out_lem p followers ctx_err {r} reach = (
    Reach-bounded (with_defaults p).parallelism reach (omega arith),
    λ done ok.
        let bs = batches followers (pos (with_defaults p).batch_size) in
        let v : IsAccounted bs r =
          Reach-IsAccounted (with_defaults p).parallelism bs reach
            (record { each = λ _ b m. inl m; counted = omega arith }) in
        let (no_err, live) = clean r ok in
        let empty : r.waiting ≡ [] = elim done.loop_done [
          | inl e ↦ e
          | inr e ↦ absurd (ground (arith, e, live))
        ] in
        (
          All-of_In _ followers (λ f m.
              let (b, at, k) =
                In-flatten f bs (subst (In f) (sym (flatten-batches followers _)) m) in
              elim (v.each no_err b at) [
                | inl waits ↦ elim (subst (In b) empty waits) [ ]
                | inr (inl runs) ↦ elim (subst (In b) done.waited runs) [ ]
                | inr (inr written) ↦ All-In _ b written k
              ]),
          omega (arith, v.counted, ap length empty, ap length done.waited),
        ),
  )
    where
      clean : (s : Run E) → result ctx_err s ≡ none → (s.first_err ≡ none) × (s.cancelled ≡ false)
      clean s h = elim (Option-cases s.first_err) [
        | inr (e, some_err) ↦ absurd (ground (arith, rw (result, some_err) at h))
        | inl none_err ↦ elim (Bool-cases s.cancelled) [
          | inl yes_done ↦ absurd (ground (arith, rw (result, none_err, yes_done) at h))
          | inr live ↦ (none_err, live)
        ]
      ]
