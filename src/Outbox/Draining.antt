-- ===== src/Outbox/Draining.antt =====
-- A pass of the relay (shared/outbox/outbox.go) when the broker and the table answer.
use social_ai_backend.Common.{
  ℕ, ◌+◌, ◌≤◌, ◌≡◌, refl, sym, subst, ◌∙◌, inl, inr, Bool, true, false, ◌&&◌, Option, none, some,
  List, [], ◌∷◌, ◌++◌, ◌==◌, ==_iff, Bool-cases, arith, any, keep, length, take_all, Aligned,
  Aligned-refl, Aligned-map, Aligned-trans, Aligned-weaken, any-In, In-map, In, In-keep,
}
use social_ai_backend.Common.Sort.{sort, In-sort, length-sort}
use social_ai_backend.Outbox.Table.{
  Row, Record, pending, published, is_pending, is_due, older, has_id, claim, claim_row, due_rows,
  lease_of, record_of, publish_row, mark_published,
}
use social_ai_backend.Outbox.Rows.{pending_status}
use social_ai_backend.Outbox.Relay.{
  Settings, World, Pass, RelayError, relay_accepted, relay_record, relay_records, relay_loaded,
  start, run_once,
}

module _ {P : Type 0} where
  abbrev is_of : ℕ → Record P → Bool
  is_of id r = r.id == id

  -- After the records of a list were published: a published row stays so, and a pending row of one of
  -- the records is published.
  pub record Drains (rs : List (Record P)) (r r' : Row P) : Type 0 where
    pub same_id : r'.id ≡ r.id
    pub stays : r.status ≡ published → r'.status ≡ published
    pub goes : any (is_of r.id) rs ≡ true → r.status ≡ pending → r'.status ≡ published

  Drains-nil : (r : Row P) → Drains [] r r
  Drains-nil r = record { same_id = refl; stays = λ h. h; goes = λ h k. cc }

  other :
      (x : Record P) (rs : List (Record P)) (r : Row P)
      → has_id x.id r && is_pending r.status ≡ false
      → r.status ≡ pending
      → any (is_of r.id) (x ∷ rs) ≡ true
      → any (is_of r.id) rs ≡ true
  other x rs r e st a = elim (Bool-cases (x.id == r.id)) [
    | inl i ↦ absurd (ground (arith, e, i, st))
    | inr i ↦ rw i at a
  ]

  Drains-cons :
      (x : Record P) (rs : List (Record P)) (now : ℕ) (r r' : Row P)
      → Drains rs (publish_row x.id now r) r'
      → Drains (x ∷ rs) r r'
  Drains-cons x rs now r r' h = elim (Bool-cases (has_id x.id r && is_pending r.status)) [
    | inl e ↦
        let k : Drains rs
            (record r { status = published; published_at = some now; last_error = [] }) r' =
          rw e at h in
        record { same_id = k.same_id; stays = λ _. k.stays refl; goes = λ _ _. k.stays refl }
    | inr e ↦
        let k : Drains rs r r' = rw e at h in
        record {
          same_id = k.same_id;
          stays = k.stays;
          goes = λ a st. k.goes (other x rs r e st a) st;
        }
  ]

-- A world in which the broker and the table answer and nothing stops.
pub record IsAnswering (w : World) : Type 0 where
  pub accepts : (n : ℕ) → w.publish n ≡ none
  pub runs : (n : ℕ) → w.stopped_before n ≡ false
  pub marks : (n : ℕ) → w.mark_fails n ≡ false
  pub loads : w.load_fails ≡ false

module _ {P : Type 0} (s : Settings) (w : World) (calm : IsAnswering w) where
  relay_record-published :
      (n : ℕ) (r : Record P) (p : Pass P)
      → relay_record s w n r p ≡ (
        record p {
          rows = mark_published r.id (w.clock n) p.rows;
          accepted = p.accepted ++ r.id ∷ [];
          published = p.published + 1;
        },
        none,
      )
  unfolding relay_record relay_accepted
  relay_record-published n r p =
      rw (relay_record, calm.runs n, calm.accepts n, relay_accepted, calm.marks n) refl

  relay_records-next :
      (n : ℕ) (r : Record P) (rs : List (Record P)) (p q : Pass P)
      → relay_record s w n r p ≡ (q, none)
      → relay_records s w n (r ∷ rs) p ≡ relay_records s w (n + 1) rs q
  unfolding relay_records
  relay_records-next n r rs p q e =
      subst
        (λ (x : Pass P × Option RelayError).
          elim x.1 [ some err ↦ (x.0, some err) | none ↦ relay_records s w (n + 1) rs x.0 ]
          ≡ relay_records s w (n + 1) rs q)
        (sym e) refl

  relay_records-Drains :
      (n : ℕ) (rs : List (Record P)) (p : Pass P)
      → Aligned (Drains rs) p.rows (relay_records s w n rs p).0.rows
        × ((relay_records s w n rs p).1 ≡ none)
        × ((relay_records s w n rs p).0.published ≡ p.published + length rs)
  unfolding relay_records mark_published
  relay_records-Drains n [] p = (Aligned-refl (Drains []) Drains-nil p.rows, refl, omega arith)
  relay_records-Drains n (r ∷ rs) p =
      let next : Pass P = record p {
        rows = mark_published r.id (w.clock n) p.rows;
        accepted = p.accepted ++ r.id ∷ [];
        published = p.published + 1;
      } in
      let rest = relay_records-Drains (n + 1) rs next in
      rw (relay_records-next n r rs p next (relay_record-published n r p)) (
        Aligned-trans (λ a b. b ≡ publish_row r.id (w.clock n) a) (Drains rs) (Drains (r ∷ rs))
            (λ a b c h k. Drains-cons r rs (w.clock n) a c (subst (λ x. Drains rs x c) h k)) p.rows
            next.rows (relay_records s w (n + 1) rs next).0.rows
            (Aligned-map _ (publish_row r.id (w.clock n)) (λ a. refl) p.rows) rest.0,
        rest.1,
        omega (arith, rest.2),
      )

  -- The number of rows that are due.
  abbrev pub due_count : ℕ → List (Row P) → ℕ
  due_count now rows = length (keep (is_due now) rows)

  due_rows-all :
      (now : ℕ) (rows : List (Row P))
      → due_count now rows ≤ s.batch_size
      → due_rows now s.batch_size rows ≡ sort older (keep (is_due now) rows)
  unfolding due_rows
  due_rows-all now rows h =
      take_all s.batch_size _ (omega (arith, length-sort older (keep (is_due now) rows), h))

  -- A due row is among the claimed records.
  due-claimed :
      (now : ℕ) (rows : List (Row P)) (r : Row P)
      → due_count now rows ≤ s.batch_size
      → In r rows
      → is_due now r ≡ true
      → any (is_of r.id) (claim s.lease now s.batch_size rows).1 ≡ true
  unfolding claim
  due-claimed now rows r h m d =
      let among : In r (due_rows now s.batch_size rows) =
        subst (In r) (sym (due_rows-all now rows h))
          (In-sort older (keep (is_due now) rows) (In-keep (is_due now) rows m d)) in
      let due = due_rows now s.batch_size rows in
      let picked =
        In-keep (λ x. any (λ d. has_id d.id x) due) rows m
          (any-In (λ d. has_id d.id r) due among ((==_iff r.id r.id).1 refl)) in
      any-In (is_of r.id) _ (In-map record_of _ (In-sort older _ picked))
        ((==_iff r.id r.id).1 refl)

  relay_loaded_now :
      (rows : List (Row P)) (c : List (Row P) × List (Record P))
      → relay_loaded s w w.load_fails rows c ≡ relay_records s w 0 c.1 (start s w c.0)
  unfolding relay_loaded
  relay_loaded_now rows c =
      subst (λ b. relay_loaded s w b rows c ≡ relay_records s w 0 c.1 (start s w c.0))
        (sym calm.loads) refl

  -- A row before the claim and after the pass.
  drained :
      (now until : ℕ) (due : List (Row P)) (rs : List (Record P)) (r b c : Row P)
      → b ≡ claim_row due until r
      → Drains rs b c
      → any (is_of r.id) rs ≡ true
      → is_due now r ≡ true
      → c.status ≡ published
  drained now until due rs r b c e d a k =
      let id : b.id ≡ r.id = same.0 in
      let st : b.status ≡ r.status = same.1 in
      d.goes (subst (λ i. any (is_of i) rs ≡ true) (sym id) a)
        (st ∙ pending_status r.status (ground (arith, k)))
    where
      same : (b.id ≡ r.id) × (b.status ≡ r.status)
      same = subst (λ x. (x.id ≡ r.id) × (x.status ≡ r.status)) (sym e) (ground arith, ground arith)

  -- When the broker and the table answer, a pass of the relay publishes every due row, if there are no
  -- more of them than the batch size, and ends without an error.
  pub run_once_drains :
      (now : ℕ) (rows : List (Row P))
      → due_count now rows ≤ s.batch_size
      → ((run_once s w now rows).1 ≡ none)
        × Aligned
            (λ r r'. is_due now r ≡ true → r'.status ≡ published)
            rows
            (run_once s w now rows).0.rows
  unfolding run_once claim
  run_once_drains now rows h =
      let c = claim s.lease now s.batch_size rows in
      let all = relay_records-Drains 0 c.1 (start s w c.0) in
      rw (relay_loaded_now rows c) (
        all.1,
        Aligned-weaken
            (λ r r'. any (is_of r.id) c.1 ≡ true → is_due now r ≡ true → r'.status ≡ published) _
            rows _ (λ r r' m f d. f (due-claimed now rows r h m d) d)
            (Aligned-trans _ (Drains c.1) _
              (λ r b q.
                drained now (now + lease_of s.lease) (due_rows now s.batch_size rows) c.1 r b q)
              rows c.0 (relay_records s w 0 c.1 (start s w c.0)).0.rows
              (Aligned-map _ (claim_row (due_rows now s.batch_size rows) (now + lease_of s.lease))
                (λ r. refl) rows)
              all.0),
      )
