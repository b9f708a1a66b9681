-- ===== src/Consumer/Tracker/History.antt =====
-- The tracker after any sequence of calls, against what was tracked and finished.
use social_ai_backend.Common.{
  ◌≡◌, refl, sym, subst, ◌∙◌, inl, inr, true, false, List, [], ◌∷◌, ◌++◌, arith, if◌then◌else◌,
  Bool-cases, any, All, Pairwise-append, All-weaken, All-In, All-append, In, In-cons,
}
use social_ai_backend.Common.Int.{
  ℤ, pos, negsuc, ltb_ℤ, eqb_ℤ, ◌<ℤ◌, ◌≤ℤ◌, ◌-ℤ◌, -ℤ_parts, ltb_ℤ_irrefl,
}
use social_ai_backend.Common.Sort.{sort}
use social_ai_backend.Consumer.Tracker.{
  PartKey, Position, Tracker, key_eq, key_of, new_tracker, track, done, committable, rewind, state,
  push_pending, finish, lower, new_state, PartState, collect,
}
use social_ai_backend.Consumer.Tracker.Watermark.{
  Increasing, watermark, finished_prefix, last_or, Tracks, ready-eq-watermark, new_state-Tracks,
  push_pending-Tracks, finish-Tracks, committed-Tracks,
}
use social_ai_backend.Consumer.Tracker.Keys.{
  state-modify, state-committable, handed, IsKeyed, modify-IsKeyed, committable-IsKeyed,
  committable_iff, key_eq_refl, Hands,
}

-- A call of one of the tracker's methods.
pub data Call : Type 0 where
  tracks dones : PartKey → ℤ → Call
  commits : Call
  rewinds : Position → Call

unfoldable pub step : Tracker → Call → Tracker
unfolding track done committable rewind
step t (tracks k o) = track k o t
step t (dones k o) = done k o t
step t commits = (committable t).0
step t (rewinds p) = rewind p t

-- The tracker after a history of calls, the newest call first.
unfoldable pub replay : List Call → Tracker
unfolding step
replay [] = new_tracker
replay (c ∷ cs) = step (replay cs) c

-- What the history tracked for a partition, in order.
abbrev pub tracked_of : PartKey → List Call → List ℤ
tracked_of k [] = []
tracked_of k (tracks j o ∷ cs) = if key_eq k j then tracked_of k cs ++ o ∷ [] else tracked_of k cs
tracked_of k (dones j o ∷ cs) = tracked_of k cs
tracked_of k (commits ∷ cs) = tracked_of k cs
tracked_of k (rewinds p ∷ cs) = tracked_of k cs

-- What it reported as finished.
abbrev pub finished_of : PartKey → List Call → List ℤ
finished_of k [] = []
finished_of k (tracks j o ∷ cs) = finished_of k cs
finished_of k (dones j o ∷ cs) = if key_eq k j then o ∷ finished_of k cs else finished_of k cs
finished_of k (commits ∷ cs) = finished_of k cs
finished_of k (rewinds p ∷ cs) = finished_of k cs

-- The caller's side: a partition's offsets are not negative and are tracked in increasing order,
-- each before it is finished.
abbrev pub Fits : PartKey → Call → List Call → Type 0
Fits k (tracks j o) cs =
    key_eq k j ≡ true
    → (pos 0 ≤ℤ o)
      × All (λ x. x <ℤ o) (tracked_of k cs)
      × (any (eqb_ℤ o) (finished_of k cs) ≡ false)
Fits k (dones j o) cs = Unit
Fits k commits cs = Unit
Fits k (rewinds p) cs = Unit

abbrev pub IsProper : PartKey → List Call → Type 0
IsProper k [] = Unit
IsProper k (c ∷ cs) = Fits k c cs × IsProper k cs

tracked_of-Increasing :
    (k : PartKey) (cs : List Call) → IsProper k cs → Increasing (tracked_of k cs)
tracked_of-Increasing k [] v = tt
tracked_of-Increasing k (tracks j o ∷ cs) v = elim (Bool-cases (key_eq k j)) [
  | inl e ↦ rw e (
      Pairwise-append _ (tracked_of k cs) (o ∷ []) (tracked_of-Increasing k cs v.1) (tt, tt)
        (All-weaken _ _ (λ x h. (h, tt)) (tracked_of k cs) (v.0 e).1))
  | inr e ↦ rw e (tracked_of-Increasing k cs v.1)
]
tracked_of-Increasing k (dones j o ∷ cs) v = tracked_of-Increasing k cs v.1
tracked_of-Increasing k (commits ∷ cs) v = tracked_of-Increasing k cs v.1
tracked_of-Increasing k (rewinds p ∷ cs) v = tracked_of-Increasing k cs v.1

lower-Tracks :
    (tracked finished : List ℤ) (s : PartState) (o : ℤ)
    → Tracks tracked finished s
    → Tracks tracked finished (lower o s)
unfolding lower
lower-Tracks tracked finished s o v = elim (Bool-cases (ltb_ℤ s.committed o)) [
  | inl e ↦ rw e v
  | inr e ↦ rw e (committed-Tracks tracked finished s (o -ℤ pos 1) v)
]

handed-Tracks :
    (tracked finished : List ℤ) (s : PartState)
    → Tracks tracked finished s
    → Tracks tracked finished (handed s)
handed-Tracks tracked finished s v = elim (Bool-cases (ltb_ℤ s.committed s.ready)) [
  | inl e ↦ rw e (committed-Tracks tracked finished s s.ready v)
  | inr e ↦ rw e v
]

state-new : (k : PartKey) → state k new_tracker ≡ new_state
unfolding state
state-new k = refl

replay-Tracks :
    (k : PartKey) (cs : List Call)
    → IsProper k cs
    → Tracks (tracked_of k cs) (finished_of k cs) (state k (replay cs))
unfolding replay step track done rewind
replay-Tracks k [] v = rw (state-new k) new_state-Tracks
replay-Tracks k (tracks j o ∷ cs) v = elim (Bool-cases (key_eq k j)) [
  | inl e ↦
      rw (state-modify k j (push_pending o) (replay cs), e)
        (push_pending-Tracks _ _ _ o (v.0 e).2 (replay-Tracks k cs v.1))
  | inr e ↦ rw (state-modify k j (push_pending o) (replay cs), e) (replay-Tracks k cs v.1)
]
replay-Tracks k (dones j o ∷ cs) v = elim (Bool-cases (key_eq k j)) [
  | inl e ↦
      rw (state-modify k j (finish o) (replay cs), e)
        (finish-Tracks _ _ _ o (tracked_of-Increasing k cs v.1) (replay-Tracks k cs v.1))
  | inr e ↦ rw (state-modify k j (finish o) (replay cs), e) (replay-Tracks k cs v.1)
]
replay-Tracks k (commits ∷ cs) v =
    rw (state-committable k (replay cs)) (handed-Tracks _ _ _ (replay-Tracks k cs v.1))
replay-Tracks k (rewinds p ∷ cs) v = elim (Bool-cases (key_eq k (key_of p))) [
  | inl e ↦
      rw (state-modify k (key_of p) (lower p.offset) (replay cs), e)
        (lower-Tracks _ _ _ p.offset (replay-Tracks k cs v.1))
  | inr e ↦ rw (state-modify k (key_of p) (lower p.offset) (replay cs), e) (replay-Tracks k cs v.1)
]

pub replay-IsKeyed : (cs : List Call) → IsKeyed (replay cs)
unfolding replay step track done rewind
replay-IsKeyed [] = tt
replay-IsKeyed (tracks j o ∷ cs) = modify-IsKeyed j (push_pending o) (replay cs) (replay-IsKeyed cs)
replay-IsKeyed (dones j o ∷ cs) = modify-IsKeyed j (finish o) (replay cs) (replay-IsKeyed cs)
replay-IsKeyed (commits ∷ cs) = committable-IsKeyed (replay cs) (replay-IsKeyed cs)
replay-IsKeyed (rewinds p ∷ cs) =
    modify-IsKeyed (key_of p) (lower p.offset) (replay cs) (replay-IsKeyed cs)

-- After any calls, if the partition's offsets are not negative and are tracked in increasing order
-- and before they are finished, its `ready` is the last offset of the longest finished prefix of
-- what was tracked, and -1 if that prefix is empty.
pub ready-replay :
    (k : PartKey) (cs : List Call)
    → IsProper k cs
    → (state k (replay cs)).ready ≡ watermark (tracked_of k cs) (finished_of k cs)
ready-replay k cs v = ready-eq-watermark _ _ _ (replay-Tracks k cs v)

watermark_covers :
    (finished xs : List ℤ) (d o : ℤ)
    → All (λ x. d <ℤ x) xs
    → Increasing xs
    → In o xs
    → o ≤ℤ last_or d (finished_prefix finished xs)
    → any (eqb_ℤ o) finished ≡ true
watermark_covers finished [] d o low inc m le = elim m [ ]
watermark_covers finished (x ∷ xs) d o low inc m le = elim (Bool-cases (any (eqb_ℤ x) finished)) [
  | inl hit ↦ elim (In-cons m) [
    | inl same ↦ subst (λ y. any (eqb_ℤ y) finished ≡ true) same hit
    | inr later ↦ watermark_covers finished xs x o inc.0 inc.1 later (rw hit at le)
  ]
  | inr miss ↦ absurd (omega (arith, All-In _ (x ∷ xs) low m, rw miss at le))
]

tracked_of-nonneg :
    (k : PartKey) (cs : List Call) → IsProper k cs → All (λ x. negsuc 0 <ℤ x) (tracked_of k cs)
tracked_of-nonneg k [] v = tt
tracked_of-nonneg k (tracks j o ∷ cs) v = elim (Bool-cases (key_eq k j)) [
  | inl e ↦ rw e (
      All-append _ (tracked_of k cs) (o ∷ []) (tracked_of-nonneg k cs v.1)
        (omega (arith, (v.0 e).0), tt))
  | inr e ↦ rw e (tracked_of-nonneg k cs v.1)
]
tracked_of-nonneg k (dones j o ∷ cs) v = tracked_of-nonneg k cs v.1
tracked_of-nonneg k (commits ∷ cs) v = tracked_of-nonneg k cs v.1
tracked_of-nonneg k (rewinds p ∷ cs) v = tracked_of-nonneg k cs v.1

-- After any calls, if a partition's offsets are not negative and are tracked in increasing order
-- and before they are finished, and `Committable` returns a position of that partition, then every
-- offset of it which was tracked and does not lie above the position has been reported as
-- finished.
pub committable_safe :
    (cs : List Call) (p : Position) (o : ℤ)
    → IsProper (key_of p) cs
    → In p (committable (replay cs)).1
    → In o (tracked_of (key_of p) cs)
    → o ≤ℤ p.offset
    → any (eqb_ℤ o) (finished_of (key_of p) cs) ≡ true
committable_safe cs p o v m tracked below =
    watermark_covers _ (tracked_of (key_of p) cs) (negsuc 0) o (tracked_of-nonneg _ cs v)
      (tracked_of-Increasing _ cs v) tracked (subst (λ w. o ≤ℤ w) at_mark below)
  where
    at_mark : p.offset ≡ watermark (tracked_of (key_of p) cs) (finished_of (key_of p) cs)
    at_mark =
        sym ((committable_iff (replay cs) p (replay-IsKeyed cs)).0 m).0
        ∙ ready-replay (key_of p) cs v

collect_twice : (t : Tracker) → (collect (collect t).0).1 ≡ []
unfolding collect
collect_twice [] = refl
collect_twice ((j, s) ∷ t) = elim (Bool-cases (ltb_ℤ s.committed s.ready)) [
  | inl e ↦ rw e (rw (ltb_ℤ_irrefl s.ready) (collect_twice t))
  | inr e ↦ rw e (rw e (collect_twice t))
]

-- A second call of `Committable` right after the first returns nothing.
pub committable_twice : (t : Tracker) → (committable (committable t).0).1 ≡ []
unfolding committable sort
committable_twice t = rw (collect_twice t) refl

-- `lower` makes a handed-out offset due again.
lower_due :
    (s : PartState) (o : ℤ)
    → s.ready ≡ o
    → ltb_ℤ s.committed s.ready ≡ true
    → Hands (lower o (handed s)) o
unfolding lower
lower_due s o e h = rw h (rw (e, ltb_ℤ_irrefl o) (refl, ground (arith, -ℤ_parts o (pos 1))))

-- A position whose commit failed is returned again: after `Rewind`, the next `Committable` returns
-- every position that the previous one returned and that was rewound.
pub rewind_retries :
    (cs : List Call) (p : Position)
    → In p (committable (replay cs)).1
    → In p (committable (rewind p (committable (replay cs)).0)).1
unfolding rewind
rewind_retries cs p m =
    (committable_iff (rewind p after) p (modify-IsKeyed (key_of p) (lower p.offset) after keyed)).1
      (rw
        (
          state-modify (key_of p) (key_of p) (lower p.offset) after,
          key_eq_refl (key_of p),
          state-committable (key_of p) t,
        )
        (lower_due (state (key_of p) t) p.offset found.0 found.1))
  where
    t : Tracker
    t = replay cs

    after : Tracker
    after = (committable t).0

    keyed : IsKeyed after
    keyed = committable-IsKeyed t (replay-IsKeyed cs)

    found : Hands (state (key_of p) t) p.offset
    found = (committable_iff t p (replay-IsKeyed cs)).0 m
