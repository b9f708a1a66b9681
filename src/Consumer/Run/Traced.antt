-- ===== src/Consumer/Run/Traced.antt =====
-- The history of the calls to the tracker that a state of `Run` (shared/consumer/consumer.go) goes back to.
use social_ai_backend.Common.{
  ℕ, ◌≡◌, refl, sym, ap, subst, ◌∙◌, inl, inr, Bool, true, none, some, List, [], ◌∷◌, ◌++◌, arith,
  ◌==◌, ==_iff, Bool-cases, any, keep, All-In, All-of_In, In, here, there, In-cons, In-snoc,
  In-append_left, In-append_right, Text,
}
use social_ai_backend.Common.Int.{ℤ, eqb_ℤ, eqb_ℤ_iff, ◌<ℤ◌}
use social_ai_backend.Consumer.Config.{Message, Settings}
use social_ai_backend.Consumer.Tracker.{PartKey, Position, key_eq, track, done, committable}
use social_ai_backend.Consumer.Tracker.History.{
  Call, tracks, dones, commits as committing, rewinds, step, replay, tracked_of, finished_of, Fits,
  IsProper,
}
use social_ai_backend.Consumer.Tracker.Keys.{key_eq→eq}
use social_ai_backend.Consumer.Run.{Loop, put_at, part_of, rewind_all, commit, Follows}

-- The calls of `commit`: `Committable`, and a `Rewind` for each position that the source refused.
abbrev after_rewinds : List Position → List Call → List Call
after_rewinds [] cs = cs
after_rewinds (p ∷ ps) cs = after_rewinds ps (rewinds p ∷ cs)

rewind_all-replay :
    (ps : List Position) (cs : List Call) → rewind_all ps (replay cs) ≡ replay (after_rewinds ps cs)
unfolding replay step
rewind_all-replay [] cs = refl
rewind_all-replay (p ∷ ps) cs = rewind_all-replay ps (rewinds p ∷ cs)

-- Rewinds track and finish nothing.
rewinds_same :
    (k : PartKey) (ps : List Position) (cs : List Call)
    → (tracked_of k (after_rewinds ps cs) ≡ tracked_of k cs)
      × (finished_of k (after_rewinds ps cs) ≡ finished_of k cs)
      × (IsProper k cs → IsProper k (after_rewinds ps cs))
rewinds_same k [] cs = (refl, refl, λ v. v)
rewinds_same k (p ∷ ps) cs =
    let (a, b, f) = rewinds_same k ps (rewinds p ∷ cs) in (a, b, λ v. f (tt, v))

-- A message of the partition with the offset stands in the list.
abbrev pub HasOffset : PartKey → ℤ → List Message → Type 0
HasOffset k o ms = (n : Message) × In n ms × (key_eq k (part_of n) ≡ true) × (n.offset ≡ o)

-- The tracker is what a history of calls leads to, and the history is that of the messages.
pub record IsTraced (cs : List Call) (x : Loop) : Type 0 where
  pub replayed : x.tracker ≡ replay cs
  pub proper : (k : PartKey) → IsProper k cs
  pub tracked :
      (k : PartKey) (n : Message)
      → In n x.fetched
      → key_eq k (part_of n) ≡ true
      → In n.offset (tracked_of k cs)
  pub tracked_from : (k : PartKey) (o : ℤ) → In o (tracked_of k cs) → HasOffset k o x.fetched
  pub finished_from :
      (k : PartKey) (o : ℤ) → any (eqb_ℤ o) (finished_of k cs) ≡ true → HasOffset k o x.finished
  pub held : (n : Message) → In n x.in_hand → In n x.fetched
  pub queued : (i : ℕ) (n : Message) → In n (x.queues i) → In n x.fetched
  pub busy : (i : ℕ) (n : Message) → x.working i ≡ some n → In n x.fetched
  pub ended : (n : Message) → In n x.finished → In n x.fetched

HasOffset-more :
    (k : PartKey) (o : ℤ) (ms ns : List Message)
    → ((n : Message) → In n ms → In n ns)
    → HasOffset k o ms
    → HasOffset k o ns
HasOffset-more k o ms ns f (n, m, e, g) = (n, f n m, e, g)

pub finished-IsTraced :
    (cs : List Call) (x : Loop) (i : ℕ) (m : Message)
    → IsTraced cs x
    → x.working i ≡ some m
    → IsTraced (dones (part_of m) m.offset ∷ cs) (record x {
      tracker = done (part_of m) m.offset x.tracker;
      working = put_at i none x.working;
      finished = m ∷ x.finished;
    })
unfolding replay step
finished-IsTraced cs x i m v at_work = record {
  replayed = ap (done (part_of m) m.offset) v.replayed;
  proper = λ k. (tt, v.proper k);
  tracked = v.tracked;
  tracked_from = v.tracked_from;
  finished_from = λ k o hit. elim (Bool-cases (key_eq k (part_of m))) [
    | inl e ↦ elim (Bool-cases (eqb_ℤ o m.offset)) [
      | inl f ↦ (m, here, e, sym ((eqb_ℤ_iff o m.offset).0 f))
      | inr f ↦ grow k o (v.finished_from k o (rw f at (rw e at hit)))
    ]
    | inr e ↦ grow k o (v.finished_from k o (rw e at hit))
  ];
  held = v.held;
  queued = v.queued;
  busy = λ j n at. idle j n at;
  ended = λ n at. elim (In-cons at) [
    | inl is_m ↦ subst (λ q. In q x.fetched) is_m (v.busy i m at_work)
    | inr old ↦ v.ended n old
  ];
}
  where
    grow : (k : PartKey) (o : ℤ) → HasOffset k o x.finished → HasOffset k o (m ∷ x.finished)
    grow k o = HasOffset-more k o x.finished (m ∷ x.finished) (λ n at. there at)

    idle : (j : ℕ) (n : Message) → put_at i none x.working j ≡ some n → In n x.fetched
    idle j n at = elim (Bool-cases (i == j)) [
      | inl e ↦ absurd (ground (arith, rw e at at))
      | inr e ↦ v.busy j n (rw e at at)
    ]

-- The steps that do not touch the tracker move messages that were fetched.
pub moved-IsTraced :
    (cs : List Call) (x y : Loop)
    → IsTraced cs x
    → y.tracker ≡ x.tracker
    → y.fetched ≡ x.fetched
    → y.finished ≡ x.finished
    → ((n : Message) → In n y.in_hand → In n x.fetched)
    → ((i : ℕ) (n : Message) → In n (y.queues i) → In n x.fetched)
    → ((i : ℕ) (n : Message) → y.working i ≡ some n → In n x.fetched)
    → IsTraced cs y
moved-IsTraced cs x y v e f g held queued busy = record {
  replayed = e ∙ v.replayed;
  proper = v.proper;
  tracked = λ k n at. v.tracked k n (subst (In n) f at);
  tracked_from = λ k o at. subst (HasOffset k o) (sym f) (v.tracked_from k o at);
  finished_from = λ k o hit. subst (HasOffset k o) (sym g) (v.finished_from k o hit);
  held = λ n at. subst (In n) (sym f) (held n at);
  queued = λ i n at. subst (In n) (sym f) (queued i n at);
  busy = λ i n at. subst (In n) (sym f) (busy i n at);
  ended = λ n at. subst (In n) (sym f) (v.ended n (subst (In n) g at));
}

pub committed-IsTraced :
    (cs : List Call) (x : Loop) (refuses : Position → Bool)
    → IsTraced cs x
    → IsTraced
        (after_rewinds (keep refuses (committable (replay cs)).1) (committing ∷ cs))
        (record x { tracker = commit refuses x.tracker })
unfolding commit replay step
committed-IsTraced cs x refuses v =
    let out : List Position = keep refuses (committable (replay cs)).1 in
    let same = λ (k : PartKey). rewinds_same k out (committing ∷ cs) in
    record {
      replayed = ap (commit refuses) v.replayed ∙ rewind_all-replay out (committing ∷ cs);
      proper = λ k. (same k).2 (tt, v.proper k);
      tracked = λ k n at e. subst (In n.offset) (sym (same k).0) (v.tracked k n at e);
      tracked_from = λ k o at. v.tracked_from k o (subst (In o) (same k).0 at);
      finished_from =
          λ k o hit. v.finished_from k o (subst (λ os. any (eqb_ℤ o) os ≡ true) (same k).1 hit);
      held = v.held;
      queued = v.queued;
      busy = v.busy;
      ended = v.ended;
    }

-- The message that a worker took was in its queue, and so were the others.
pub taken_queue :
    (x : Loop) (j : ℕ) (m : Message) (ms : List Message)
    → x.queues j ≡ m ∷ ms
    → (i : ℕ) (n : Message) → In n (put_at j ms x.queues i)
    → In n (x.queues i)
taken_queue x j m ms e i n at = elim (Bool-cases (j == i)) [
  | inl f ↦
      subst (λ k. In n (x.queues k)) ((==_iff j i).0 f) (subst (In n) (sym e) (there (rw f at at)))
  | inr f ↦ rw f at at
]

module _ (hash : Text → ℕ) (cfg : Settings) where
  -- The offset of a new message is above all that its partition tracked.
  new_offset :
      (cs : List Call) (x : Loop) (m : Message)
      → IsTraced cs x
      → Follows hash cfg m x.fetched
      → (k : PartKey) → Fits k (tracks (part_of m) m.offset) cs
  new_offset cs x m v (nonneg, above) k same = (
    nonneg,
    All-of_In _ (tracked_of k cs) (λ o at. below o (v.tracked_from k o at)),
    elim (Bool-cases (any (eqb_ℤ m.offset) (finished_of k cs))) [
      | inr e ↦ e
      | inl e ↦
          let (n, at, f, g) = v.finished_from k m.offset e in
          let less : n.offset <ℤ m.offset = below n.offset (n, v.ended n at, f, refl) in
          absurd (no_less n.offset m.offset g less)
    ],
  )
    where
      below : (o : ℤ) → HasOffset k o x.fetched → o <ℤ m.offset
      below o (n, at, f, g) =
          let one : key_eq (part_of m) (part_of n) ≡ true =
            subst (λ j. key_eq j (part_of n) ≡ true) (key_eq→eq k (part_of m) same) f in
          subst (λ (z : ℤ). z <ℤ m.offset) g (All-In _ x.fetched above at one)

      no_less : (a b : ℤ) → a ≡ b → a <ℤ b → ⊥
      no_less a b e h = absurd (omega (arith, subst (λ (z : ℤ). z <ℤ b) e h))

  pub fetched-IsTraced :
      (cs : List Call) (x : Loop) (m : Message)
      → IsTraced cs x
      → Follows hash cfg m x.fetched
      → IsTraced (tracks (part_of m) m.offset ∷ cs) (record x {
        tracker = track (part_of m) m.offset x.tracker;
        fetched = x.fetched ++ m ∷ [];
        in_hand = m ∷ [];
      })
  unfolding replay step
  fetched-IsTraced cs x m v follows = record {
    replayed = ap (track (part_of m) m.offset) v.replayed;
    proper = λ k. (new_offset cs x m v follows k, v.proper k);
    tracked = λ k n at same. elim (Bool-cases (key_eq k (part_of m))) [
      | inl e ↦ rw e (elim (In-snoc x.fetched at) [
        | inl old ↦ In-append_left (m.offset ∷ []) (v.tracked k n old same)
        | inr is_m ↦
            In-append_right (tracked_of k cs)
              (subst (λ (q : Message). In q.offset (m.offset ∷ [])) is_m here)
      ])
      | inr e ↦ rw e (elim (In-snoc x.fetched at) [
        | inl old ↦ v.tracked k n old same
        | inr is_m ↦ absurd (
            ground (arith, e, subst (λ (q : Message). key_eq k (part_of q) ≡ true) (sym is_m) same))
      ])
    ];
    tracked_from = λ k o at. elim (Bool-cases (key_eq k (part_of m))) [
      | inl e ↦ elim (In-snoc (tracked_of k cs) (rw e at at)) [
        | inl old ↦ grow k o (v.tracked_from k o old)
        | inr is_o ↦ (m, In-append_right x.fetched here, e, is_o)
      ]
      | inr e ↦ grow k o (v.tracked_from k o (rw e at at))
    ];
    finished_from = v.finished_from;
    held = λ n at. elim (In-cons at) [
      | inl is_m ↦ subst (λ q. In q (x.fetched ++ m ∷ [])) is_m (In-append_right x.fetched here)
      | inr none_left ↦ elim none_left [ ]
    ];
    queued = λ i n at. In-append_left (m ∷ []) (v.queued i n at);
    busy = λ i n at. In-append_left (m ∷ []) (v.busy i n at);
    ended = λ n at. In-append_left (m ∷ []) (v.ended n at);
  }
    where
      grow : (k : PartKey) (o : ℤ) → HasOffset k o x.fetched → HasOffset k o (x.fetched ++ m ∷ [])
      grow k o =
          HasOffset-more k o x.fetched (x.fetched ++ m ∷ []) (λ n at. In-append_left (m ∷ []) at)
