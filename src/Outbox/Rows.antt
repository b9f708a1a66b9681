-- ===== src/Outbox/Rows.antt =====
-- What may become of a row of the outbox table (shared/outbox/pgstore.go).
use social_ai_backend.Common.{
  ℕ, ◌≤◌, ◌<◌, ◌≡◌, refl, sym, subst, ◌∙◌, ◌⊎◌, inl, inr, true, ◌&&◌, List, ◌==◌, ==_iff,
  Bool-cases, arith, any, Text,
}
use social_ai_backend.Outbox.Table.{
  Row, Status, pending, published, dead, is_pending, has_id, claim_row, publish_row, fail_row,
}
use social_ai_backend.Outbox.Relay.{Settings, gives_up}

-- The broker accepted an event with this id.
abbrev pub Accepted : List ℕ → ℕ → Type 0
Accepted accepted id = any (λ k. k == id) accepted ≡ true

pub pending_status : (st : Status) → is_pending st ≡ true → st ≡ pending
pending_status pending h = refl
pending_status published h = cc
pending_status dead h = cc

module _ {P : Type 0} (s : Settings) where
  -- What may become of a row: its event stays, and a row that is pending stays so, or is published
  -- where the broker accepted it, or is dead where it used up its attempts; others stay as they are.
  pub record Evolves (accepted : List ℕ) (r r' : Row P) : Type 0 where
    pub same_id : r'.id ≡ r.id
    pub same_topic : r'.topic ≡ r.topic
    pub same_key : r'.key ≡ r.key
    pub same_payload : r'.payload ≡ r.payload
    pub same_status :
        ((r'.status ≡ r.status) × (r'.attempts ≡ r.attempts))
        ⊎ ((r.status ≡ pending)
            × ((r'.status ≡ pending)
                ⊎ (((r'.status ≡ published) × Accepted accepted r.id)
                    ⊎ ((r'.status ≡ dead)
                        × (0 < s.max_attempts)
                        × (s.max_attempts ≤ r'.attempts)))))

  pub Evolves-refl : (accepted : List ℕ) (r : Row P) → Evolves accepted r r
  Evolves-refl accepted r = record {
    same_id = refl;
    same_topic = refl;
    same_key = refl;
    same_payload = refl;
    same_status = inl (refl, refl);
  }

  -- What a row that was pending has become.
  abbrev pub Outcome : List ℕ → Row P → Row P → Type 0
  Outcome accepted r r' =
      (r'.status ≡ pending)
      ⊎ (((r'.status ≡ published) × Accepted accepted r.id)
          ⊎ ((r'.status ≡ dead) × (0 < s.max_attempts) × (s.max_attempts ≤ r'.attempts)))

  Outcome-later :
      (accepted more : List ℕ) (a b c : Row P)
      → ((id : ℕ) → Accepted accepted id → Accepted more id)
      → a.id ≡ b.id
      → Outcome accepted b c
      → Outcome more a c
  Outcome-later accepted more a b c grow e (inl h) = inl h
  Outcome-later accepted more a b c grow e (inr (inl h)) =
      inr (inl (h.0, grow a.id (subst (Accepted accepted) (sym e) h.1)))
  Outcome-later accepted more a b c grow e (inr (inr h)) = inr (inr h)

  Outcome-kept :
      (accepted : List ℕ) (a b c : Row P)
      → c.status ≡ b.status
      → c.attempts ≡ b.attempts
      → Outcome accepted a b
      → Outcome accepted a c
  Outcome-kept accepted a b c e f (inl h) = inl (e ∙ h)
  Outcome-kept accepted a b c e f (inr (inl h)) = inr (inl (e ∙ h.0, h.1))
  Outcome-kept accepted a b c e f (inr (inr h)) = inr (inr (e ∙ h.0, h.1, omega (arith, h.2)))

  pub Evolves-trans :
      (accepted more : List ℕ) (a b c : Row P)
      → ((id : ℕ) → Accepted accepted id → Accepted more id)
      → Evolves accepted a b
      → Evolves more b c
      → Evolves more a c
  Evolves-trans accepted more a b c grow h k = record {
    same_id = k.same_id ∙ h.same_id;
    same_topic = k.same_topic ∙ h.same_topic;
    same_key = k.same_key ∙ h.same_key;
    same_payload = k.same_payload ∙ h.same_payload;
    same_status = elim h.same_status [
      | inl e ↦ elim k.same_status [
        | inl e' ↦ inl (e'.0 ∙ e.0, e'.1 ∙ e.1)
        | inr (p, o) ↦
            inr (sym e.0 ∙ p, Outcome-later more more a b c (λ id x. x) (sym h.same_id) o)
      ]
      | inr (p, o) ↦ inr (
        p,
        elim k.same_status [
          | inl e ↦ Outcome-kept more a b c e.0 e.1 (Outcome-later accepted more a a b grow refl o)
          | inr (_, o') ↦ Outcome-later more more a b c (λ id x. x) (sym h.same_id) o'
        ],
      )
    ];
  }

  changed :
      (accepted : List ℕ) (id : ℕ) (r r' : Row P)
      → (has_id id r && is_pending r.status) ≡ true
      → r'.id ≡ r.id
      → r'.topic ≡ r.topic
      → r'.key ≡ r.key
      → r'.payload ≡ r.payload
      → Outcome accepted r r'
      → Evolves accepted r r'
  changed accepted id r r' e i t k p o = record {
    same_id = i;
    same_topic = t;
    same_key = k;
    same_payload = p;
    same_status = inr (pending_status r.status (ground (arith, e)), o);
  }

  pub publish_row-Evolves :
      (accepted : List ℕ) (id now : ℕ) (r : Row P)
      → Accepted accepted id
      → Evolves accepted r (publish_row id now r)
  publish_row-Evolves accepted id now r acc =
      elim (Bool-cases (has_id id r && is_pending r.status)) [
        | inr e ↦ rw e (Evolves-refl accepted r)
        | inl e ↦ rw e (
            changed accepted id r _ e refl refl refl refl (
              inr (
                inl
                  (refl, subst (Accepted accepted) ((==_iff id r.id).0 (ground (arith, e))) acc))))
      ]

  pub fail_row-Evolves :
      (accepted : List ℕ) (id attempts next : ℕ) (reason : Text) (r : Row P)
      → Evolves accepted r (fail_row id attempts next reason (gives_up s attempts) r)
  fail_row-Evolves accepted id attempts next reason r =
      elim (Bool-cases (has_id id r && is_pending r.status)) [
        | inr e ↦ rw e (Evolves-refl accepted r)
        | inl e ↦ rw e (changed accepted id r _ e refl refl refl refl (ground arith))
      ]

  pub claim_row-Evolves :
      (accepted : List ℕ) (due : List (Row P)) (until : ℕ) (r : Row P)
      → Evolves accepted r (claim_row due until r)
  claim_row-Evolves accepted due until r = record {
    same_id = ground arith;
    same_topic = ground arith;
    same_key = ground arith;
    same_payload = ground arith;
    same_status = ground arith;
  }
