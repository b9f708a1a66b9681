-- ===== src/Consumer/Tracker/Watermark.antt =====
-- One partition of the tracker (shared/consumer/tracker.go) against the list of what was tracked.
use social_ai_backend.Common.{
  ◌≡◌, refl, sym, ap, subst, ◌∙◌, inl, inr, true, false, not, List, [], ◌∷◌, ◌++◌, arith,
  if◌then◌else◌, Bool-cases, any, keep, All, All-append, All-weaken, Pairwise, Pairwise-across,
  ◌||◌, append_assoc, append-nil,
}
use social_ai_backend.Common.Int.{ℤ, negsuc, eqb_ℤ, eqb_ℤ_iff, ◌<ℤ◌}
use social_ai_backend.Consumer.Tracker.{PartState, new_state, push_pending, advance, finish}

-- The longest prefix whose offsets are all finished.
abbrev pub finished_prefix : List ℤ → List ℤ → List ℤ
finished_prefix finished [] = []
finished_prefix finished (o ∷ os) =
    if any (eqb_ℤ o) finished then o ∷ finished_prefix finished os else []

abbrev pub last_or : ℤ → List ℤ → ℤ
last_or d [] = d
last_or d (o ∷ os) = last_or o os

-- The specification: offsets tracked so far, in order, and offsets finished so far.
abbrev pub watermark : List ℤ → List ℤ → ℤ
watermark tracked finished = last_or (negsuc 0) (finished_prefix finished tracked)

abbrev pub Increasing : List ℤ → Type 0
Increasing = Pairwise ◌<ℤ◌

-- A partition's state against its history: `passed` has left the queue, the rest still waits.
record IsTracking (tracked finished passed : List ℤ) (s : PartState) : Type 0 where
  split : tracked ≡ passed ++ s.pending
  passed_finished : All (λ o. any (eqb_ℤ o) finished ≡ true) passed
  ready_last : s.ready ≡ last_or (negsuc 0) passed
  agrees : (o : ℤ) → any (eqb_ℤ o) passed ≡ false → any (eqb_ℤ o) s.done ≡ any (eqb_ℤ o) finished
  blocked : finished_prefix finished s.pending ≡ []

-- The state is one that the history leads to.
pub Tracks : List ℤ → List ℤ → PartState → Type 0
Tracks tracked finished s = (passed : List ℤ) × IsTracking tracked finished passed s

not_passed : (o : ℤ) (xs : List ℤ) → All (λ x. x <ℤ o) xs → any (eqb_ℤ o) xs ≡ false
not_passed o [] h = refl
not_passed o (x ∷ xs) h = ground (arith, not_passed o xs h.1, h.0)

head_not_passed :
    (o : ℤ) (os passed : List ℤ) → Increasing (passed ++ o ∷ os) → any (eqb_ℤ o) passed ≡ false
head_not_passed o os passed inc =
    not_passed o passed (All-weaken _ _ (λ x h. h.0) passed (Pairwise-across _ passed (o ∷ os) inc))

finished_prefix-append :
    (finished xs ys : List ℤ)
    → All (λ o. any (eqb_ℤ o) finished ≡ true) xs
    → finished_prefix finished (xs ++ ys) ≡ xs ++ finished_prefix finished ys
finished_prefix-append finished [] ys h = refl
finished_prefix-append finished (x ∷ xs) ys h =
    rw h.0 (ap (◌∷◌ x) (finished_prefix-append finished xs ys h.1))

last_or-append : (d o : ℤ) (xs : List ℤ) → last_or d (xs ++ o ∷ []) ≡ o
last_or-append d o [] = refl
last_or-append d o (x ∷ xs) = last_or-append x o xs

any-append :
    (o : ℤ) (xs ys : List ℤ) → any (eqb_ℤ o) (xs ++ ys) ≡ any (eqb_ℤ o) xs || any (eqb_ℤ o) ys
any-append o [] ys = refl
any-append o (x ∷ xs) ys = ground (arith, any-append o xs ys)

-- Deleting another key changes nothing.
any-delete :
    (o k : ℤ) (d : List ℤ)
    → eqb_ℤ o k ≡ false
    → any (eqb_ℤ o) (keep (λ x. not (eqb_ℤ k x)) d) ≡ any (eqb_ℤ o) d
any-delete o k [] h = refl
any-delete o k (x ∷ xs) h = elim (Bool-cases (eqb_ℤ k x)) [
  | inl e ↦ rw (e, any-delete o k xs h) (ground (arith, (eqb_ℤ_iff k x).0 e, h))
  | inr e ↦ rw (e, any-delete o k xs h)
]

-- `ready` is the specification's watermark.
pub ready-eq-watermark :
    (tracked finished : List ℤ) (s : PartState)
    → Tracks tracked finished s
    → s.ready ≡ watermark tracked finished
unfolding Tracks
ready-eq-watermark tracked finished s (passed, v) =
    v.ready_last
    ∙ sym (
        rw
          (
            v.split,
            finished_prefix-append finished passed s.pending v.passed_finished,
            v.blocked,
            append-nil passed,
          )
          refl)

pub new_state-Tracks : Tracks [] [] new_state
unfolding Tracks
new_state-Tracks = (
  [],
  record {
    split = refl;
    passed_finished = tt;
    ready_last = refl;
    agrees = λ o h. refl;
    blocked = refl;
  },
)

-- The two parts of `Increasing` that a new offset needs, and that it is not finished yet.
pub push_pending-Tracks :
    (tracked finished : List ℤ) (s : PartState) (o : ℤ)
    → any (eqb_ℤ o) finished ≡ false
    → Tracks tracked finished s
    → Tracks (tracked ++ o ∷ []) finished (push_pending o s)
unfolding Tracks
push_pending-Tracks tracked finished s o fresh (passed, v) = (
  passed,
  record {
    split = ap (λ l. l ++ o ∷ []) v.split ∙ append_assoc passed s.pending (o ∷ []);
    passed_finished = v.passed_finished;
    ready_last = v.ready_last;
    agrees = v.agrees;
    blocked = still s.pending v.blocked;
  },
)
  where
    still :
        (p : List ℤ) → finished_prefix finished p ≡ [] → finished_prefix finished (p ++ o ∷ []) ≡ []
    still [] h = rw fresh refl
    still (x ∷ p) h = ground (arith, h)

advance-Tracks :
    (tracked finished passed os : List ℤ) (s : PartState)
    → Increasing tracked
    → tracked ≡ passed ++ os
    → All (λ o. any (eqb_ℤ o) finished ≡ true) passed
    → s.ready ≡ last_or (negsuc 0) passed
    → ((o : ℤ) → any (eqb_ℤ o) passed ≡ false → any (eqb_ℤ o) s.done ≡ any (eqb_ℤ o) finished)
    → Tracks tracked finished (advance os s)
unfolding Tracks advance
advance-Tracks tracked finished passed [] s inc e all_done last agrees = (
  passed,
  record {
    split = e;
    passed_finished = all_done;
    ready_last = last;
    agrees = agrees;
    blocked = refl;
  },
)
advance-Tracks tracked finished passed (o ∷ os) s inc e all_done last agrees =
    elim (Bool-cases (any (eqb_ℤ o) s.done)) [
      | inl hit ↦ rw hit (
          advance-Tracks tracked finished (passed ++ o ∷ []) os _ inc
            (e ∙ sym (append_assoc passed (o ∷ []) os))
            (All-append _ passed (o ∷ []) all_done (sym (agrees o unseen) ∙ hit, tt))
            (sym (last_or-append (negsuc 0) o passed)) still)
      | inr miss ↦ rw miss (
        passed,
        record {
          split = e;
          passed_finished = all_done;
          ready_last = last;
          agrees = agrees;
          blocked = rw (sym (agrees o unseen) ∙ miss) refl;
        },
      )
    ]
  where
    unseen : any (eqb_ℤ o) passed ≡ false
    unseen = head_not_passed o os passed (subst Increasing e inc)

    still :
        (x : ℤ)
        → any (eqb_ℤ x) (passed ++ o ∷ []) ≡ false
        → any (eqb_ℤ x) (keep (λ d. not (eqb_ℤ o d)) s.done) ≡ any (eqb_ℤ x) finished
    still x h =
        any-delete x o s.done (ground (arith, any-append x passed (o ∷ []), h))
        ∙ agrees x (ground (arith, any-append x passed (o ∷ []), h))

pub finish-Tracks :
    (tracked finished : List ℤ) (s : PartState) (o : ℤ)
    → Increasing tracked
    → Tracks tracked finished s
    → Tracks tracked (o ∷ finished) (finish o s)
unfolding Tracks finish
finish-Tracks tracked finished s o inc (passed, v) =
    advance-Tracks tracked (o ∷ finished) passed s.pending _ inc v.split
      (All-weaken _ _ (λ x h. ground (arith, h)) passed v.passed_finished) v.ready_last
      (λ x h. ground (arith, v.agrees x h))

-- `committed` plays no part in it.
pub committed-Tracks :
    (tracked finished : List ℤ) (s : PartState) (c : ℤ)
    → Tracks tracked finished s
    → Tracks tracked finished (record s { committed = c })
unfolding Tracks
committed-Tracks tracked finished s c (passed, v) = (
  passed,
  record {
    split = v.split;
    passed_finished = v.passed_finished;
    ready_last = v.ready_last;
    agrees = v.agrees;
    blocked = v.blocked;
  },
)
