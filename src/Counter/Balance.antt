-- ===== src/Counter/Balance.antt =====
-- A round of `Flush` (shared/counter/counter.go), at one counter.
use social_ai_backend.Common.{
  ℕ, ◌≡◌, refl, sym, ◌∙◌, ◌⊎◌, inl, inr, false, Option, none, some, [], ◌∷◌, ◌++◌, ◌==◌, any, arith,
  Bool-cases, Option-cases, Text,
}
use mathlib.Core.List.{append_cancel_left}
use social_ai_backend.Common.Int.{ℤ, pos, ◌+ℤ◌, int_laws, eqb_ℤ, eqb_ℤ_iff, +ℤ_comm, +ℤ_assoc}
use social_ai_backend.Counter.{
  Store, Sink, IncrError, FlushError, store_failed, dirty_key, colon, delta_key, parse_int, first,
  incr, Progress, apply, apply_parsed, settle,
}
use social_ai_backend.Counter.Contract.{StoreLaws, SinkLaws}
use social_ai_backend.Counter.Conserve.{incr_ok, incr-other}

-- A field's name, which holds no colon.
abbrev pub IsField : Text → Type 0
IsField f = any (λ c. c == colon) f ≡ false

swap_last : (a b c : ℤ) → a +ℤ b +ℤ c ≡ a +ℤ c +ℤ b
swap_last a b c = grind int_laws

add_zero : (a : ℤ) → pos 0 +ℤ a ≡ a
add_zero a = grind int_laws

zero_add : (a : ℤ) → a +ℤ pos 0 ≡ a
zero_add a = grind int_laws

pub first-some {ℓ} : {E : Type ℓ} (o : Option E) (e : E) → (x : E) × (first o e ≡ some x)
first-some none e = (e, refl)
first-some (some x) e = (x, refl)

cons-tail : {x y : ℕ} {xs ys : Text} → x ∷ xs ≡ y ∷ ys → xs ≡ ys
cons-tail e = cc

cons-head : {x y : ℕ} {xs ys : Text} → x ∷ xs ≡ y ∷ ys → x ≡ y
cons-head e = cc

cut_at_colon :
    (f g i j : Text) → IsField f → IsField g → f ++ colon ∷ i ≡ g ++ colon ∷ j → (i ≡ j) × (f ≡ g)
cut_at_colon [] [] i j hf hg e = (cons-tail e, refl)
cut_at_colon [] (y ∷ g) i j hf hg e = absurd (ground (arith, hg, cons-head e))
cut_at_colon (x ∷ f) [] i j hf hg e = absurd (ground (arith, hf, cons-head e))
cut_at_colon (x ∷ f) (y ∷ g) i j hf hg e =
    let rest = cut_at_colon f g i j (ground (arith, hf)) (ground (arith, hg)) (cons-tail e) in
    (rest.0, rw (cons-head e, rest.1) refl)

pub delta_key_inj :
    (prefix f g i j : Text)
    → IsField f
    → IsField g
    → delta_key prefix i f ≡ delta_key prefix j g
    → (i ≡ j) × (f ≡ g)
unfolding delta_key
delta_key_inj prefix f g i j hf hg e =
    cut_at_colon f g i j hf hg (cons-tail (append_cancel_left prefix _ _ e))

module _ {S D : Type 0} (store : Store S) (sink : Sink D) (laws : StoreLaws store)
    (counts : SinkLaws sink) (prefix id field : Text) (named : IsField field) where
  -- What is counted: the number in Redis and the number in the sink.
  abbrev pub total : Progress S D → ℤ
  total p = laws.value p.redis (delta_key prefix id field) +ℤ counts.count p.rows id field

  abbrev pub taken : Progress S D → Progress S D
  taken p = record p { redis = (store.get_del (delta_key prefix id field) p.redis).0 }

  -- The write of a delta returned an error although it took effect, or the delta was not put back for
  -- certain.
  abbrev pub AddTrouble : ℤ → Progress S D → Type 0
  AddTrouble delta p =
      ((sink.add id field delta p.rows).1 ≡ false)
      × ((counts.count (sink.add id field delta p.rows).0 id field
            ≡ counts.count p.rows id field +ℤ delta)
          ⊎ ((e : IncrError) × ((incr store prefix id field delta p.redis).1 ≡ some e)))

  -- What can go wrong in the round of this counter that begins at p: GETDEL returned an error although it
  -- emptied the key, or the write of what it gave.
  abbrev pub Trouble : Progress S D → Type 0
  Trouble p =
      (((store.get_del (delta_key prefix id field) p.redis).1 ≡ none)
        × (laws.value (taken p).redis (delta_key prefix id field) ≡ pos 0))
      ⊎ AddTrouble (laws.value p.redis (delta_key prefix id field)) (taken p)

  abbrev pub HasError : Progress S D → Type 0
  HasError p = (e : FlushError) × (p.error ≡ some e)

  -- A round keeps the sum; or it met trouble, and there is an error.
  abbrev pub Settled : Progress S D → Progress S D → Type 0
  Settled p q = (total q ≡ total p) ⊎ (HasError q × Trouble p)

  -- The write of another counter's delta.
  apply-other :
      (i f : Text) (delta : ℤ) (p : Progress S D)
      → ¬ (delta_key prefix i f ≡ delta_key prefix id field)
      → total (apply store sink prefix i f delta p) ≡ total p
  unfolding apply
  apply-other i f delta p ne =
      let apart : ¬ ((i ≡ id) × (f ≡ field)) = λ h. ne (rw (h.0, h.1) refl) in
      let rows = counts.add_other i f id field delta p.rows apart in
      elim (Bool-cases (sink.add i f delta p.rows).1) [
        | inl e ↦ rw (e, rows) refl
        | inr e ↦ rw (e, rows, incr-other laws prefix i f delta p.redis _ ne) refl
      ]

  -- The write of this counter's delta, which was taken from Redis.
  apply_self :
      (delta : ℤ) (p : Progress S D)
      → (total (apply store sink prefix id field delta p) ≡ total p +ℤ delta)
        ⊎ (HasError (apply store sink prefix id field delta p) × AddTrouble delta p)
  unfolding apply
  apply_self delta p = elim (Bool-cases (sink.add id field delta p.rows).1) [
    | inl e ↦ inl (rw (e, counts.add_done id field delta p.rows e) (sym (+ℤ_assoc _ _ _)))
    | inr e ↦ elim (counts.add_failed id field delta p.rows e) [
      | inr done ↦ inr (rw e (first-some p.error _), (e, inl done))
      | inl undone ↦ elim (Option-cases (incr store prefix id field delta p.redis).1) [
        | inl f ↦ inl (
            rw (e, undone, incr_ok laws prefix id field delta p.redis f)
              (swap_last (laws.value p.redis (delta_key prefix id field)) delta
                (counts.count p.rows id field)))
        | inr (g, f) ↦ inr (rw e (first-some p.error _), (e, inr (g, f)))
      ]
    ]
  ]

  apply_parsed-other :
      (i f : Text) (delta : Option ℤ) (p : Progress S D)
      → ¬ (delta_key prefix i f ≡ delta_key prefix id field)
      → total (apply_parsed store sink prefix i f delta p) ≡ total p
  unfolding apply_parsed
  apply_parsed-other i f none p ne = refl
  apply_parsed-other i f (some delta) p ne = elim (Bool-cases (eqb_ℤ delta (pos 0))) [
    | inl z ↦ rw z refl
    | inr z ↦ rw z (apply-other i f delta p ne)
  ]

  -- The write of the number that Redis held, after which the counter there is empty.
  apply_parsed_self :
      (v : ℤ) (p : Progress S D)
      → (total (apply_parsed store sink prefix id field (some v) p) ≡ total p +ℤ v)
        ⊎ (HasError (apply_parsed store sink prefix id field (some v) p) × AddTrouble v p)
  unfolding apply_parsed
  apply_parsed_self v p = elim (Bool-cases (eqb_ℤ v (pos 0))) [
    | inl z ↦ inl (rw z (sym (rw ((eqb_ℤ_iff v (pos 0)).0 z) (zero_add (total p)))))
    | inr z ↦ rw z (apply_self v p)
  ]

  -- What follows GETDEL, at another counter.
  pub settle-other :
      (m i f : Text) (raw : Option Text) (p : Progress S D)
      → ¬ (delta_key prefix i f ≡ delta_key prefix id field)
      → total (settle store sink prefix m i f raw p) ≡ total p
  unfolding settle
  settle-other m i f none p ne =
      rw (laws.s_add_value (dirty_key prefix) m (delta_key prefix id field) p.redis) refl
  settle-other m i f (some []) p ne = refl
  settle-other m i f (some (c ∷ raw)) p ne = apply_parsed-other i f (parse_int (c ∷ raw)) p ne

  -- GETDEL and what follows it, at this counter.
  pub settle_self :
      (m : Text) (raw : Option Text) (p : Progress S D)
      → (store.get_del (delta_key prefix id field) p.redis).1 ≡ raw
      → Settled p (settle store sink prefix m id field raw (taken p))
  unfolding settle
  settle_self m none p e =
      let kept =
        laws.s_add_value (dirty_key prefix) m (delta_key prefix id field) (taken p).redis in
      elim (laws.get_del_failed (delta_key prefix id field) p.redis e) [
        | inl stays ↦ inl (rw (kept, stays) refl)
        | inr gone ↦ inr (first-some p.error store_failed, inl (e, gone))
      ]
  settle_self m (some []) p e = inl (
      rw
        (
          laws.get_del_clears (delta_key prefix id field) p.redis [] e,
          laws.get_del_none (delta_key prefix id field) p.redis e,
        )
        refl)
  settle_self m (some (c ∷ raw)) p e =
      let k = delta_key prefix id field in
      let v = laws.value p.redis k in
      let parsed : parse_int (c ∷ raw) ≡ some v = laws.get_del_decimal k p.redis c raw e in
      let cleared : total (taken p) ≡ counts.count p.rows id field =
        rw (laws.get_del_clears k p.redis (c ∷ raw) e) (add_zero _) in
      rw parsed (elim (apply_parsed_self v (taken p)) [
        | inl h ↦ inl (h ∙ rw cleared (+ℤ_comm (counts.count p.rows id field) v))
        | inr h ↦ inr (h.0, inr h.1)
      ])
