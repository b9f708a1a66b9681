-- ===== src/Message/Once.antt =====
-- The outcomes of `SendMessage` (services/message/service/message.go) under a key.
use social_ai_backend.Common.{
  ℕ, ◌≡◌, refl, subst, inl, inr, Bool, true, false, ◌||◌, some, [], ◌∷◌, Bool-cases, length, ltb,
  Text, text_eq, is_empty, ◌⊎◌, ok, err, Ensures, Attempt-cases,
}
use social_ai_backend.Transaction.{Weather, calm, in_tx, in_tx_ok, in_tx_err}
use social_ai_backend.Message.Names.{conversation_id}
use social_ai_backend.Message.Tables.{Db, max_content_len}
use social_ai_backend.Message.Send.{
  Error, Result, db_error, send_tx, send_message, deliver, admit, reply, optional, Message,
  to_message,
}
use social_ai_backend.Message.Retry.{Holds, send_tx-Holds, send_tx-replay}

err_ne_ok {ℓ κ} : {A : Type ℓ} {B : Type κ} {e : Error} {a : A} → err e ≡ ok a → B
err_ne_ok h = absurd cc

-- The checks depend on the request and on the users.
admit_again :
    (w : Weather) (sender receiver content : Text) (db db' : Db)
    → db'.users ≡ db.users
    → admit w sender receiver content db ≡ ok tt
    → admit calm sender receiver content db' ≡ ok tt
unfolding admit
admit_again w sender receiver content db db' u h = elim (Bool-cases (text_eq sender receiver)) [
  | inl a ↦ err_ne_ok (rw a at h)
  | inr a ↦ elim (Bool-cases (is_empty content || ltb max_content_len (length content))) [
    | inl b ↦ err_ne_ok (rw (a, b) at h)
    | inr b ↦ elim (Bool-cases (w.fails 0)) [
      | inl c ↦ err_ne_ok (rw (a, b, c) at h)
      | inr c ↦ rw (a, b, u) (rw (a, b, c) at h)
    ]
  ]
]

optional-some : (key : Text) → is_empty key ≡ false → optional key ≡ some key
optional-some [] h = cc
optional-some (c ∷ s) h = refl

module _ (now now' : ℕ) (sender receiver content key : Text) (named : is_empty key ≡ false) where
  -- The outcomes of a request that passed the checks.
  abbrev Outcome : Db → Db × Result (Message × Bool) → Type 0
  Outcome db r =
      ((e : Error) × (r ≡ (db, err e)))
      ⊎ ((db' : Db) × (m : Message) × (send_message calm now' sender receiver content key db'
            ≡ (db', ok (m, true)))
          × (((b : Bool) × (r ≡ (db', ok (m, b)))) ⊎ (r ≡ (db', err db_error))))

  replayed :
      (db : Db) (r : Db × (ℕ × ℕ × Bool))
      → Holds (conversation_id sender receiver) sender content key db.users r
      → admit calm sender receiver content r.0 ≡ ok tt
      → send_message calm now' sender receiver content key r.0
        ≡ (r.0, ok ((to_message sender receiver content r.1).0, true))
  unfolding send_message deliver reply in_tx
  replayed db r h a =
      rw (a, optional-some key named, send_tx-replay sender receiver content key now' db.users r h)
        refl

  settled :
      (w : Weather) (db : Db) (r : Db × (ℕ × ℕ × Bool))
      → Holds (conversation_id sender receiver) sender content key db.users r
      → admit calm sender receiver content r.0 ≡ ok tt
      → Outcome db (reply sender receiver content (in_tx db_error w db (ok r)))
  unfolding reply
  settled w db (db', a) h adm = elim (in_tx_ok db_error w db db' a) [
    | inl (_, e) ↦ rw e (inl (_, refl))
    | inr (inl (_, _, e)) ↦ rw e (inr (db', _, replayed db (db', a) h adm, inr refl))
    | inr (inr e) ↦ rw e (inr (db', _, replayed db (db', a) h adm, inl (_, refl)))
  ]

  delivered :
      (w : Weather) (db : Db)
      → admit w sender receiver content db ≡ ok tt
      → Outcome db (deliver w now sender receiver content key db (ok tt))
  unfolding deliver reply
  delivered w db a =
      rw (optional-some key named)
        (elim (Attempt-cases (send_tx w now sender receiver content (some key) db)) [
          | inr (e, h) ↦ rw (h, (in_tx_err db_error {A = ℕ × ℕ × Bool} w db e).1) (inl (_, refl))
          | inl (r, h) ↦
              let kept =
                subst
                  (Ensures (Holds (conversation_id sender receiver) sender content key db.users)) h
                  (send_tx-Holds sender receiver content key w now db) in
              rw h (
                settled w db r kept
                  (admit_again w sender receiver content db r.0 kept.users_kept a))
        ])

-- With an idempotency key, a request in any weather either is refused and leaves the tables as they
-- were, or stores its message so that the same request, made again and meeting no error of the
-- database, returns this message as a replay and changes nothing. In the second case the first
-- request returned the very same message, or an error of the database (the commit's answer was lost).
pub exactly_once :
    (w : Weather) (now now' : ℕ) (sender receiver content key : Text) (db : Db)
    → is_empty key ≡ false
    → ((e : Error) × (send_message w now sender receiver content key db ≡ (db, err e)))
      ⊎ ((db' : Db) × (m : Message) × (send_message calm now' sender receiver content key db'
            ≡ (db', ok (m, true)))
          × (((b : Bool) × (send_message w now sender receiver content key db ≡ (db', ok (m, b))))
              ⊎ (send_message w now sender receiver content key db ≡ (db', err db_error))))
unfolding send_message deliver
exactly_once w now now' sender receiver content key db named =
    elim (Attempt-cases (admit w sender receiver content db)) [
      | inr (e, h) ↦ rw h (inl (e, refl))
      | inl (tt, h) ↦ rw h (delivered now now' sender receiver content key named w db h)
    ]
