-- ===== src/Consumer/Tracker/Keys.antt =====
-- The map of partitions: what the tracker's methods change, and for which partition.
use social_ai_backend.Common.{
  ◌≡◌, ◌↔◌, refl, subst, ◌∙◌, inl, inr, true, false, [], ◌∷◌, arith, if◌then◌else◌, Bool-cases, All,
  Pairwise, In, here, there, In-cons, text_eq→eq, text_eq_refl, text_eq_comm,
}
use social_ai_backend.Common.Int.{ℤ, ltb_ℤ}
use social_ai_backend.Common.Sort.{sort-In, In-sort}
use social_ai_backend.Consumer.Tracker.{
  PartKey, PartState, Position, Tracker, key_eq, key_of, modify, state, collect, committable,
  position_less,
}

pub key_eq→eq : (a b : PartKey) → key_eq a b ≡ true → a ≡ b
unfolding key_eq
key_eq→eq a b h = ground (arith, text_eq→eq a.topic b.topic)

pub key_eq_refl : (a : PartKey) → key_eq a a ≡ true
unfolding key_eq
key_eq_refl a = ground (arith, text_eq_refl a.topic)

pub key_eq_comm : (a b : PartKey) → key_eq a b ≡ key_eq b a
unfolding key_eq
key_eq_comm a b = ground (arith, text_eq_comm a.topic b.topic)

-- A change to one partition is seen there and nowhere else.
pub state-modify :
    (k j : PartKey) (f : PartState → PartState) (t : Tracker)
    → state k (modify j f t) ≡ (if key_eq k j then f (state k t) else state k t)
unfolding state modify
state-modify k j f [] = ground arith
state-modify k j f ((i, s) ∷ t) = elim (Bool-cases (key_eq j i)) [
  | inl e ↦ rw (e, key_eq→eq j i e) (ground arith)
  | inr e ↦ elim (Bool-cases (key_eq k i)) [
    | inl h ↦ rw (e, h, key_eq→eq k i h, key_eq_comm i j, e) refl
    | inr h ↦ rw (e, h) (state-modify k j f t)
  ]
]

-- What `Committable` makes of one partition's state.
abbrev pub handed : PartState → PartState
handed s = if ltb_ℤ s.committed s.ready then record s { committed = s.ready } else s

state-collect : (k : PartKey) (t : Tracker) → state k (collect t).0 ≡ handed (state k t)
unfolding state collect
state-collect k [] = refl
state-collect k ((j, s) ∷ t) = elim (Bool-cases (ltb_ℤ s.committed s.ready)) [
  | inl e ↦ elim (Bool-cases (key_eq k j)) [
    | inl h ↦ rw (e, h) (rw e refl)
    | inr h ↦ rw (e, h) (state-collect k t)
  ]
  | inr e ↦ elim (Bool-cases (key_eq k j)) [
    | inl h ↦ rw (e, h) (rw e refl)
    | inr h ↦ rw (e, h) (state-collect k t)
  ]
]

pub state-committable : (k : PartKey) (t : Tracker) → state k (committable t).0 ≡ handed (state k t)
unfolding committable
state-committable k t = state-collect k t

-- No partition stands twice in the map.
abbrev pub IsKeyed : Tracker → Type 0
IsKeyed = Pairwise (λ a b. key_eq a.0 b.0 ≡ false)

modify-All {κ} :
    (P : PartKey → Type κ) (k : PartKey) (f : PartState → PartState) (t : Tracker)
    → P k
    → All (λ e. P e.0) t
    → All (λ e. P e.0) (modify k f t)
unfolding modify
modify-All P k f [] h v = (h, tt)
modify-All P k f ((j, s) ∷ t) h v = elim (Bool-cases (key_eq k j)) [
  | inl e ↦ rw e v
  | inr e ↦ rw e (v.0, modify-All P k f t h v.1)
]

pub modify-IsKeyed :
    (k : PartKey) (f : PartState → PartState) (t : Tracker) → IsKeyed t → IsKeyed (modify k f t)
unfolding modify
modify-IsKeyed k f [] v = (tt, tt)
modify-IsKeyed k f ((j, s) ∷ t) v = elim (Bool-cases (key_eq k j)) [
  | inl e ↦ rw e v
  | inr e ↦ rw e (
    modify-All (λ i. key_eq j i ≡ false) k f t (key_eq_comm j k ∙ e) v.0,
    modify-IsKeyed k f t v.1,
  )
]

collect-All {κ} :
    (P : PartKey → Type κ) (t : Tracker) → All (λ e. P e.0) t → All (λ e. P e.0) (collect t).0
unfolding collect
collect-All P [] v = tt
collect-All P ((j, s) ∷ t) v = elim (Bool-cases (ltb_ℤ s.committed s.ready)) [
  | inl e ↦ rw e (v.0, collect-All P t v.1)
  | inr e ↦ rw e (v.0, collect-All P t v.1)
]

collect-IsKeyed : (t : Tracker) → IsKeyed t → IsKeyed (collect t).0
unfolding collect
collect-IsKeyed [] v = tt
collect-IsKeyed ((j, s) ∷ t) v = elim (Bool-cases (ltb_ℤ s.committed s.ready)) [
  | inl e ↦ rw e (collect-All (λ i. key_eq j i ≡ false) t v.0, collect-IsKeyed t v.1)
  | inr e ↦ rw e (collect-All (λ i. key_eq j i ≡ false) t v.0, collect-IsKeyed t v.1)
]

pub committable-IsKeyed : (t : Tracker) → IsKeyed t → IsKeyed (committable t).0
unfolding committable
committable-IsKeyed t v = collect-IsKeyed t v

-- The position says what the partition's state has to hand out.
abbrev pub Hands : PartState → ℤ → Type 0
Hands s o = (s.ready ≡ o) × (ltb_ℤ s.committed s.ready ≡ true)

collect-key :
    (t : Tracker) (p : Position) (k : PartKey)
    → All (λ e. key_eq k e.0 ≡ false) t
    → In p (collect t).1
    → key_eq k (key_of p) ≡ false
unfolding collect
collect-key [] p k v m = elim m [ ]
collect-key ((j, s) ∷ t) p k v m = elim (Bool-cases (ltb_ℤ s.committed s.ready)) [
  | inl e ↦ elim (In-cons (rw e at m)) [
    | inl same ↦ subst (λ q. key_eq k (key_of q) ≡ false) same v.0
    | inr later ↦ collect-key t p k v.1 later
  ]
  | inr e ↦ collect-key t p k v.1 (rw e at m)
]

collect-Hands :
    (t : Tracker) (p : Position)
    → IsKeyed t
    → In p (collect t).1
    → Hands (state (key_of p) t) p.offset
unfolding collect state
collect-Hands [] p v m = elim m [ ]
collect-Hands ((j, s) ∷ t) p v m = elim (Bool-cases (ltb_ℤ s.committed s.ready)) [
  | inl e ↦ elim (In-cons (rw e at m)) [
    | inl same ↦
        subst (λ q. Hands (if key_eq (key_of q) j then s else state (key_of q) t) q.offset) same
          (rw (key_eq_refl j) (refl, e))
    | inr later ↦
        rw (key_eq_comm (key_of p) j, collect-key t p j v.0 later) (collect-Hands t p v.1 later)
  ]
  | inr e ↦
      rw (key_eq_comm (key_of p) j, collect-key t p j v.0 (rw e at m))
        (collect-Hands t p v.1 (rw e at m))
]

collect-In : (t : Tracker) (p : Position) → Hands (state (key_of p) t) p.offset → In p (collect t).1
unfolding collect state
collect-In [] p h = absurd (ground (arith, h.1))
collect-In ((j, s) ∷ t) p h = elim (Bool-cases (key_eq (key_of p) j)) [
  | inl e ↦ hit e (rw e at h)
  | inr e ↦ elim (Bool-cases (ltb_ℤ s.committed s.ready)) [
    | inl l ↦ rw l (there (collect-In t p (rw e at h)))
    | inr l ↦ rw l (collect-In t p (rw e at h))
  ]
]
  where
    hit : key_eq (key_of p) j ≡ true → Hands s p.offset → In p (collect ((j, s) ∷ t)).1
    hit e (at, more) =
        rw more (
          subst (λ q. In p (q ∷ (collect t).1)) (ground (arith, key_eq→eq (key_of p) j e, at)) here)

-- A position is returned exactly if its partition's state has it to hand out.
pub committable_iff :
    (t : Tracker) (p : Position)
    → IsKeyed t
    → In p (committable t).1 ↔ Hands (state (key_of p) t) p.offset
unfolding committable
committable_iff t p v = (
  λ m. collect-Hands t p v (sort-In position_less (collect t).1 m),
  λ h. In-sort position_less (collect t).1 (collect-In t p h),
)
