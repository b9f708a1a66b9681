-- ===== src/Counter/Conserve.antt =====
-- `Incr` of shared/counter/counter.go.
use social_ai_backend.Common.{
  ◌≡◌, ap, ◌∙◌, ◌⊎◌, inl, inr, Bool, true, false, Option, none, some, Bool-cases, Text,
}
use social_ai_backend.Common.Int.{ℤ, pos, ◌+ℤ◌, ◌-ℤ◌, int_laws}
use social_ai_backend.Counter.{
  Store, IncrError, not_recorded, unscheduled, dirty_key, delta_key, member, incr,
}
use social_ai_backend.Counter.Contract.{StoreLaws}

undo : (v n : ℤ) → v +ℤ n +ℤ (pos 0 -ℤ n) ≡ v
undo v n = grind int_laws

module _ {S : Type 0} {store : Store S} (laws : StoreLaws store) (prefix : Text) where
  -- The calls of `Incr`: the increment, the mark, and the undo that follows a failed mark.
  abbrev pub recording : Text → Text → ℤ → S → S × Bool
  recording id field n s = store.incr_by (delta_key prefix id field) n s

  abbrev pub marking : Text → Text → ℤ → S → S × Bool
  marking id field n s = store.s_add (dirty_key prefix) (member id field) (recording id field n s).0

  abbrev pub undoing : Text → Text → ℤ → S → S × Bool
  undoing id field n s =
      store.incr_by (delta_key prefix id field) (pos 0 -ℤ n) (marking id field n s).0

  -- What `Incr` did and what it says.
  pub data IncrOutcome (id field : Text) (n : ℤ) (s : S) : S × Option IncrError → Type 0 where
    recorded :
        laws.value (marking id field n s).0 (delta_key prefix id field)
          ≡ laws.value s (delta_key prefix id field) +ℤ n
        → laws.marked (marking id field n s).0 (dirty_key prefix) (member id field) ≡ true
        → IncrOutcome id field n s ((marking id field n s).0, none)
    undone :
        (marking id field n s).1 ≡ false
        → (undoing id field n s).1 ≡ true
        → laws.value (undoing id field n s).0 (delta_key prefix id field)
          ≡ laws.value s (delta_key prefix id field)
        → IncrOutcome id field n s ((undoing id field n s).0, some not_recorded)
    unanswered :
        (recording id field n s).1 ≡ false
        → (laws.value (recording id field n s).0 (delta_key prefix id field)
            ≡ laws.value s (delta_key prefix id field))
          ⊎ (laws.value (recording id field n s).0 (delta_key prefix id field)
              ≡ laws.value s (delta_key prefix id field) +ℤ n)
        → IncrOutcome id field n s ((recording id field n s).0, some not_recorded)
    unsettled :
        (marking id field n s).1 ≡ false
        → (undoing id field n s).1 ≡ false
        → (laws.value (undoing id field n s).0 (delta_key prefix id field)
            ≡ laws.value s (delta_key prefix id field) +ℤ n)
          ⊎ (laws.value (undoing id field n s).0 (delta_key prefix id field)
              ≡ laws.value s (delta_key prefix id field))
        → IncrOutcome id field n s ((undoing id field n s).0, some unscheduled)

  -- Over a Redis whose commands have the documented effects and in which a call that returns an error had
  -- its effect or none, `Incr` succeeds, and then the increment is stored and its counter is marked as
  -- pending; or SADD returned an error and the undo succeeded, and `Incr` reports that nothing was
  -- recorded and the stored number is what it was; or INCRBY itself returned an error, `Incr` reports the
  -- same, and the increment is stored or not; or SADD and the undo both returned an error, `Incr`
  -- reports another error, and the increment is stored or not.
  pub incr_outcome :
      (id field : Text) (n : ℤ) (s : S) → IncrOutcome id field n s (incr store prefix id field n s)
  unfolding incr
  incr_outcome id field n s =
      let k = delta_key prefix id field in
      let same : laws.value (marking id field n s).0 k ≡ laws.value (recording id field n s).0 k =
        laws.s_add_value (dirty_key prefix) (member id field) k (recording id field n s).0 in
      elim (Bool-cases (recording id field n s).1) [
        | inr e ↦ rw e (unanswered e (laws.incr_by_failed k n s e))
        | inl e ↦
            let there = same ∙ laws.incr_by_done k n s e in
            elim (Bool-cases (marking id field n s).1) [
              | inl f ↦
                  rw (e, f)
                    (recorded there (
                      laws.s_add_done (dirty_key prefix) (member id field)
                        (recording id field n s).0 f))
              | inr f ↦ elim (Bool-cases (undoing id field n s).1) [
                | inl g ↦
                    rw (e, f, g)
                      (undone f g (
                        laws.incr_by_done k (pos 0 -ℤ n) (marking id field n s).0 g
                        ∙ ap (λ t. t +ℤ (pos 0 -ℤ n)) there
                        ∙ undo (laws.value s k) n))
                | inr g ↦
                    rw (e, f, g)
                      (unsettled f g
                        (elim (laws.incr_by_failed k (pos 0 -ℤ n) (marking id field n s).0 g) [
                          | inl stays ↦ inl (stays ∙ there)
                          | inr goes ↦
                              inr
                                (goes ∙ ap (λ t. t +ℤ (pos 0 -ℤ n)) there ∙ undo (laws.value s k) n)
                        ]))
              ]
            ]
      ]

  -- Another counter's number stays.
  pub incr-other :
      (id field : Text) (n : ℤ) (s : S) (l : Text)
      → ¬ (delta_key prefix id field ≡ l)
      → laws.value (incr store prefix id field n s).0 l ≡ laws.value s l
  unfolding incr
  incr-other id field n s l ne =
      let k = delta_key prefix id field in
      let stored = (store.incr_by k n s).0 in
      let marked = (store.s_add (dirty_key prefix) (member id field) stored).0 in
      let one = laws.incr_by_other k l n s ne in
      let two = laws.s_add_value (dirty_key prefix) (member id field) l stored ∙ one in
      elim (Bool-cases (store.incr_by k n s).1) [
        | inr e ↦ rw e one
        | inl e ↦ elim (Bool-cases (store.s_add (dirty_key prefix) (member id field) stored).1) [
          | inl f ↦ rw (e, f) two
          | inr f ↦ rw (e, f) (laws.incr_by_other k l (pos 0 -ℤ n) marked ne ∙ two)
        ]
      ]

  pub incr_ok :
      (id field : Text) (n : ℤ) (s : S)
      → (incr store prefix id field n s).1 ≡ none
      → laws.value (incr store prefix id field n s).0 (delta_key prefix id field)
        ≡ laws.value s (delta_key prefix id field) +ℤ n
  incr_ok id field n s e = by_outcome (incr store prefix id field n s) (incr_outcome id field n s) e
    where
      by_outcome :
          (r : S × Option IncrError)
          → IncrOutcome id field n s r
          → r.1 ≡ none
          → laws.value r.0 (delta_key prefix id field)
            ≡ laws.value s (delta_key prefix id field) +ℤ n
      by_outcome _ (recorded v m) h = v
      by_outcome _ (undone f g v) h = cc
      by_outcome _ (unanswered f v) h = cc
      by_outcome _ (unsettled f g v) h = cc
