-- ===== src/Indexer/SyncAll.antt =====
-- Syncs of several posts, one after the other (services/indexer/worker/indexer.go).
use social_ai_backend.Common.{
  ℕ, suc, ◌+◌, ◌≡◌, refl, ap, subst, ◌∙◌, inl, inr, true, false, some, List, [], ◌∷◌, ◌++◌, arith,
  Bool-cases, any, length, All, All-weaken, Pairwise, Text, text_eq, text_lt, text_eq_comm,
  text_eq→eq, text_lt_irrefl, text_lt_asymm, text_lt_neg_trans, ok,
}
use social_ai_backend.Common.Sort.{StrictlySorted, IsStrictWeak}
use social_ai_backend.Indexer.{PostRow, State, World, Progress, sync_all, last_of}
use social_ai_backend.Indexer.Steps.{IsConsistent}
use social_ai_backend.Indexer.Current.{IsCurrent, SameElsewhere, Answers, sync-IsCurrent}

pub text_lt-IsStrictWeak : IsStrictWeak text_lt
text_lt-IsStrictWeak = record { asymm = text_lt_asymm; neg_trans = text_lt_neg_trans }

pub text_lt-differ : (a b : Text) → text_lt a b ≡ true → text_eq a b ≡ false
text_lt-differ a b h = elim (Bool-cases (text_eq a b)) [
  | inl e ↦
      absurd
        (ground (arith, h, subst (λ t. text_lt a t ≡ false) (text_eq→eq a b e) (text_lt_irrefl a)))
  | inr e ↦ e
]

abbrev Different : List Text → Type 0
Different = Pairwise (λ a b. text_eq a b ≡ false)

differ-All :
    (a : Text) (bs : List Text)
    → All (λ b. text_lt a b ≡ true) bs
    → All (λ b. text_eq a b ≡ false) bs
differ-All a bs = All-weaken _ _ (text_lt-differ a) bs

pub Different-of_sorted : (ids : List Text) → StrictlySorted text_lt ids → Different ids
Different-of_sorted [] s = tt
Different-of_sorted (id ∷ ids) s = (differ-All id ids s.0, Different-of_sorted ids s.1)

pub not_any :
    (j : Text) (ids : List Text)
    → All (λ i. text_eq i j ≡ false) ids
    → any (λ i. text_eq i j) ids ≡ false
not_any j [] h = refl
not_any j (i ∷ ids) h = rw h.0 (not_any j ids h.1)

pub last_of-append : (after x : Text) (ids : List Text) → last_of after (ids ++ x ∷ []) ≡ x
last_of-append after x [] = refl
last_of-append after x (id ∷ ids) = last_of-append id x ids

module _ {V : Type 0} where
  -- Every id of the list has a row.
  abbrev pub ArePresent : State V → List Text → Type 0
  ArePresent s = All (λ id. (row : PostRow V) × (s.rows id ≡ some row))

  -- The states agree on all posts outside the list.
  abbrev pub SameOutside : List Text → State V → State V → Type 0
  SameOutside ids s s' =
      (j : Text)
      → any (λ i. text_eq i j) ids ≡ false
      → (s'.rows j ≡ s.rows j) × (s'.docs j ≡ s.docs j)

  pub IsCurrent-same :
      (j : Text) (s s' : State V)
      → (s'.rows j ≡ s.rows j) × (s'.docs j ≡ s.docs j)
      → IsCurrent j s
      → IsCurrent j s'
  IsCurrent-same j s s' same (now, at, d, e, f, g) = (now, same.0 ∙ at, d, same.1 ∙ e, f, g)

  ArePresent-elsewhere :
      (id : Text) (s s' : State V)
      → SameElsewhere id s s'
      → (ids : List Text) → All (λ j. text_eq id j ≡ false) ids
      → ArePresent s ids
      → ArePresent s' ids
  ArePresent-elsewhere id s s' same [] d p = tt
  ArePresent-elsewhere id s s' same (j ∷ ids) d ((row, at), p) =
      ((row, (same j d.0).0 ∙ at), ArePresent-elsewhere id s s' same ids d.1 p)

  module _ (worlds : Text → World V) (answers : (id : Text) → Answers (worlds id)) where
    -- Syncs of different posts make all of them current.
    pub sync_all-IsCurrent :
        (ids : List Text) (s : State V)
        → Different ids
        → IsConsistent s
        → ArePresent s ids
        → (s' : State V) × (sync_all worlds ids s ≡ (s', length ids, ok tt))
          × All (λ id. IsCurrent id s') ids
          × (s'.ids ≡ s.ids)
          × SameOutside ids s s'
          × IsConsistent s'
    unfolding sync_all
    sync_all-IsCurrent [] s d v p = (s, refl, tt, refl, λ j h. (refl, refl), v)
    sync_all-IsCurrent (id ∷ ids) s d v ((row, at), p) =
        let (s', done, now_current, ids', elsewhere, v') =
          sync-IsCurrent (worlds id) id row s (answers id) v at in
        let (s'', rest, all_current, ids'', outside, v'') =
          sync_all-IsCurrent ids s' d.1 v' (ArePresent-elsewhere id s s' elsewhere ids d.0 p) in
        let self : any (λ i. text_eq i id) ids ≡ false =
          not_any id ids (All-weaken _ _ (λ i h. text_eq_comm i id ∙ h) ids d.0) in
        (
          s'',
          rw (done, rest) (one_more_lem s'' (length ids)),
          (IsCurrent-same id s' s'' (outside id self) now_current, all_current),
          ids'' ∙ ids',
          λ j h. elim (Bool-cases (text_eq id j)) [
            | inl e ↦ absurd (ground (arith, rw e at h))
            | inr e ↦
                let a = elsewhere j e in let b = outside j (rw e at h) in (b.0 ∙ a.0, b.1 ∙ a.1)
          ],
          v'',
        )
      where
        one_more_lem :
            (t : State V) (n : ℕ) → ◌≡◌ {A = Progress V} (t, n + 1, ok tt) (t, suc n, ok tt)
        one_more_lem t n = ap (λ (m : ℕ). (t, m, ok tt)) (omega arith)
