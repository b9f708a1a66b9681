-- ===== src/Transaction.antt =====
-- shared/db/db.go: `InTx`, and what a service's calls of its database can meet. The tables are a
-- parameter, as is the error that stands for any error of the database.
use social_ai_backend.Common.{
  ℕ, ◌≡◌, ◌⊎◌, refl, inl, inr, Bool, true, false, Attempt, ok, err, refuse, Ensures, if◌then◌else◌,
  Bool-cases,
}

-- What the database does besides its work: `fails n` makes the n-th call of the request return an
-- error, and `commit_lost` says whether a commit whose call returned an error took effect.
pub record Weather : Type 0 where
  pub fails : ℕ → Bool
  pub commit_lost : Bool

-- A database that answers every call.
abbrev pub calm : Weather
calm = record { fails = λ _. false; commit_lost = false }

module _ {E : Type 0} (db_error : E) where
  abbrev pub db_call : Weather → ℕ → Attempt E (Unit {0})
  db_call w n = refuse (w.fails n) db_error

  module _ {ℓ} {D : Type 0} {A : Type ℓ} where
    -- The tables after the transaction, and what its caller sees.
    unfoldable pub in_tx : Weather → D → Attempt E (D × A) → D × Attempt E A
    in_tx w db (err e) = (db, err (if w.fails 1 then db_error else e))
    in_tx w db (ok (db', a)) =
        if w.fails 1
        then (db, err db_error)
        else if w.fails 9
        then (if w.commit_lost then db' else db, err db_error)
        else (db', ok a)

    -- A statement outside a transaction, the n-th call of the request.
    unfoldable pub exec : Weather → ℕ → (D → D × A) → D → D × Attempt E A
    exec w n f db =
        if w.fails n
        then (if w.commit_lost then (f db).0 else db, err db_error)
        else ((f db).0, ok (f db).1)

    -- A property of the tables that the transaction's body keeps.
    pub in_tx-Ensures {κ} :
        (Q : D → Type κ) (w : Weather) (db : D) (m : Attempt E (D × A))
        → Q db
        → Ensures (λ r. Q r.0) m
        → Q (in_tx w db m).0
    unfolding in_tx
    in_tx-Ensures Q w db (err e) v h = v
    in_tx-Ensures Q w db (ok (db', a)) v h = elim (Bool-cases (w.fails 1)) [
      | inl e ↦ rw e v
      | inr e ↦ elim (Bool-cases (w.fails 9)) [
        | inl e' ↦ elim (Bool-cases w.commit_lost) [
          | inl lost ↦ rw (e, e', lost) h
          | inr lost ↦ rw (e, e', lost) v
        ]
        | inr e' ↦ rw (e, e') h
      ]
    ]

    pub exec_keeps {κ} :
        (Q : D → Type κ) (w : Weather) (n : ℕ) (f : D → D × A) (db : D)
        → Q db
        → Q (f db).0
        → Q (exec w n f db).0
    unfolding exec
    exec_keeps Q w n f db v h = elim (Bool-cases (w.fails n)) [
      | inr e ↦ rw e h
      | inl e ↦ elim (Bool-cases w.commit_lost) [
        | inl lost ↦ rw (e, lost) h
        | inr lost ↦ rw (e, lost) v
      ]
    ]

    -- A body that succeeds: a call failed and nothing happened; or all of it did, but the commit returned
    -- an error; or all of it did.
    pub in_tx_ok :
        (w : Weather) (db db' : D) (a : A)
        → (((w.fails 1 ≡ true) ⊎ (w.fails 9 ≡ true))
            × (in_tx w db (ok (db', a)) ≡ (db, err db_error)))
          ⊎ (((w.fails 9 ≡ true)
                × (w.commit_lost ≡ true)
                × (in_tx w db (ok (db', a)) ≡ (db', err db_error)))
              ⊎ (in_tx w db (ok (db', a)) ≡ (db', ok a)))
    unfolding in_tx
    in_tx_ok w db db' a = elim (Bool-cases (w.fails 1)) [
      | inl e ↦ inl (inl e, rw e refl)
      | inr e ↦ elim (Bool-cases (w.fails 9)) [
        | inl e' ↦ elim (Bool-cases w.commit_lost) [
          | inl lost ↦ inr (inl (e', lost, rw (e, e', lost) refl))
          | inr lost ↦ inl (inr e', rw (e, e', lost) refl)
        ]
        | inr e' ↦ inr (inr (rw (e, e') refl))
      ]
    ]

    pub in_tx_err : (w : Weather) (db : D) (e : E) → (e' : E) × (in_tx w db (err e) ≡ (db, err e'))
    unfolding in_tx
    in_tx_err w db e = (_, refl)

    pub in_tx_done :
        (w : Weather) (db db' : D) (a : A)
        → ((n : ℕ) → w.fails n ≡ false)
        → in_tx w db (ok (db', a)) ≡ (db', ok a)
    unfolding in_tx
    in_tx_done w db db' a calm = rw (calm 1, calm 9) refl
