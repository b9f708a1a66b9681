-- ===== src/Outbox/Delivery.antt =====
-- What a pass of the relay (shared/outbox/outbox.go) does to each row of the table.
use social_ai_backend.Common.{
  ℕ, ◌+◌, refl, ◌∙◌, inl, inr, Bool, true, false, List, [], ◌∷◌, ◌++◌, ◌==◌, Bool-cases,
  Option-cases, arith, any-append, Text, Aligned, Aligned-refl, Aligned-map, Aligned-trans,
}
use social_ai_backend.Outbox.Table.{
  Row, Record, claim, due_rows, lease_of, publish_row, mark_published, mark_failed,
}
use social_ai_backend.Outbox.Relay.{
  Settings, World, Pass, backoff, gives_up, updated, fail, relay_accepted, relay_refused,
  relay_record, relay_records, start, counted, relay_loaded, run_once, publish_now,
}
use social_ai_backend.Outbox.Rows.{
  Accepted, Evolves, Evolves-refl, Evolves-trans, publish_row-Evolves, fail_row-Evolves,
  claim_row-Evolves,
}

Accepted-append :
    (accepted : List ℕ) (k id : ℕ) → Accepted accepted id → Accepted (accepted ++ k ∷ []) id
Accepted-append accepted k id h = any-append (λ j. j == id) accepted (k ∷ []) ∙ rw h refl

Accepted-new : (accepted : List ℕ) (id : ℕ) → Accepted (accepted ++ id ∷ []) id
Accepted-new accepted id = ground (arith, any-append (λ j. j == id) accepted (id ∷ []))

module _ {P : Type 0} (s : Settings) (w : World) where
  -- From one state of a pass to a later one.
  abbrev pub Keeps : Pass P → Pass P → Type 0
  Keeps p q =
      Aligned (Evolves s q.accepted) p.rows q.rows
      × ((id : ℕ) → Accepted p.accepted id → Accepted q.accepted id)

  Keeps-refl : (p : Pass P) → Keeps p p
  Keeps-refl p = (Aligned-refl _ (Evolves-refl s p.accepted) p.rows, λ id h. h)

  Keeps-trans : (p q r : Pass P) → Keeps p q → Keeps q r → Keeps p r
  Keeps-trans p q r h k = (
    Aligned-trans _ _ _ (λ a b c. Evolves-trans s q.accepted r.accepted a b c k.1) p.rows q.rows
        r.rows h.0 k.0,
    λ id a. k.1 id (h.1 id a),
  )

  -- An update that each row allows, whatever became of its call.
  updated-Aligned :
      (R : Row P → Row P → Type 0) (n : ℕ) (f : List (Row P) → List (Row P)) (rows : List (Row P))
      → ((r : Row P) → R r r)
      → Aligned R rows (f rows)
      → Aligned R rows (updated s w n f rows).0
  updated-Aligned R n f rows r h = elim (Bool-cases (w.mark_fails n)) [
    | inr e ↦ rw e h
    | inl e ↦ elim (Bool-cases (w.takes_effect n)) [
      | inl t ↦ rw (e, t) h
      | inr t ↦ rw (e, t) (Aligned-refl R r rows)
    ]
  ]

  marked-Aligned :
      (n id now : ℕ) (accepted : List ℕ) (rows : List (Row P))
      → Accepted accepted id
      → Aligned (Evolves s accepted) rows (updated s w n (mark_published id now) rows).0
  unfolding mark_published
  marked-Aligned n id now accepted rows h =
      updated-Aligned (Evolves s accepted) n (mark_published id now) rows (Evolves-refl s accepted)
        (Aligned-map _ (publish_row id now) (λ r. publish_row-Evolves s accepted id now r h) rows)

  fail-Aligned :
      (n : ℕ) (r : Record P) (reason : Text) (accepted : List ℕ) (rows : List (Row P))
      → Aligned (Evolves s accepted) rows (fail s w n r reason rows).0
  unfolding fail mark_failed
  fail-Aligned n r reason accepted rows =
      updated-Aligned (Evolves s accepted) n
        (mark_failed r.id (r.attempts + 1) (w.clock n + backoff s (r.attempts + 1)) reason
          (gives_up s (r.attempts + 1)))
        rows (Evolves-refl s accepted)
        (Aligned-map _ _
          (fail_row-Evolves s accepted r.id (r.attempts + 1)
            (w.clock n + backoff s (r.attempts + 1)) reason)
          rows)

  relay_accepted-Keeps : (n : ℕ) (r : Record P) (p : Pass P) → Keeps p (relay_accepted s w n r p).0
  unfolding relay_accepted
  relay_accepted-Keeps n r p =
      let marked =
        marked-Aligned n r.id (w.clock n) (p.accepted ++ r.id ∷ []) p.rows
          (Accepted-new p.accepted r.id) in
      elim (Bool-cases (updated s w n (mark_published r.id (w.clock n)) p.rows).1) [
        | inl e ↦ rw e (marked, Accepted-append p.accepted r.id)
        | inr e ↦ rw e (marked, Accepted-append p.accepted r.id)
      ]

  counted-Keeps :
      (marked parked : Bool) (rows : List (Row P)) (p : Pass P)
      → Aligned (Evolves s p.accepted) p.rows rows
      → Keeps p (counted s w marked parked rows p).0
  unfolding counted
  counted-Keeps false parked rows p h = (h, λ id k. k)
  counted-Keeps true true rows p h = (h, λ id k. k)
  counted-Keeps true false rows p h = (h, λ id k. k)

  relay_refused-Keeps :
      (n : ℕ) (r : Record P) (reason : Text) (p : Pass P)
      → Keeps p (relay_refused s w n r reason p).0
  unfolding relay_refused
  relay_refused-Keeps n r reason p = elim (Bool-cases (w.stopped_after n)) [
    | inl e ↦ rw (relay_refused, e) (Keeps-refl p)
    | inr e ↦
        rw (relay_refused, e)
          (counted-Keeps (fail s w n r reason p.rows).1 (gives_up s (r.attempts + 1))
            (fail s w n r reason p.rows).0 p (fail-Aligned n r reason p.accepted p.rows))
  ]

  relay_record-Keeps : (n : ℕ) (r : Record P) (p : Pass P) → Keeps p (relay_record s w n r p).0
  unfolding relay_record
  relay_record-Keeps n r p = elim (Bool-cases (w.stopped_before n)) [
    | inl e ↦ rw e (Keeps-refl p)
    | inr e ↦ elim (Option-cases (w.publish n)) [
      | inl f ↦ rw (e, f) (relay_accepted-Keeps n r p)
      | inr (reason, f) ↦ rw (e, f) (relay_refused-Keeps n r reason p)
    ]
  ]

  relay_records-Keeps :
      (n : ℕ) (rs : List (Record P)) (p : Pass P) → Keeps p (relay_records s w n rs p).0
  unfolding relay_records
  relay_records-Keeps n [] p = Keeps-refl p
  relay_records-Keeps n (r ∷ rs) p = elim (Option-cases (relay_record s w n r p).1) [
    | inr (e, f) ↦ rw (relay_records, f) (relay_record-Keeps n r p)
    | inl f ↦
        rw (relay_records, f)
          (Keeps-trans p (relay_record s w n r p).0
            (relay_records s w (n + 1) rs (relay_record s w n r p).0).0 (relay_record-Keeps n r p)
            (relay_records-Keeps (n + 1) rs (relay_record s w n r p).0))
  ]

  relay_loaded-Aligned :
      (failed : Bool) (rows claimed : List (Row P)) (due : List (Record P))
      → Aligned (Evolves s []) rows claimed
      → Aligned
          (Evolves s (relay_loaded s w failed rows (claimed, due)).0.accepted)
          rows
          (relay_loaded s w failed rows (claimed, due)).0.rows
  unfolding relay_loaded
  relay_loaded-Aligned true rows claimed due h = elim (Bool-cases (w.takes_effect 0)) [
    | inl t ↦ rw t h
    | inr t ↦ rw t (Aligned-refl _ (Evolves-refl s []) rows)
  ]
  relay_loaded-Aligned false rows claimed due h =
      (Keeps-trans (start s w rows) (start s w claimed)
        (relay_records s w 0 due (start s w claimed)).0 (h, λ id k. k)
        (relay_records-Keeps 0 due (start s w claimed))).0

  -- Whatever fails in a pass of the relay, the table keeps every row with its event and its place, and
  -- a row changes its status only from pending: to published, if the broker accepted its event in this
  -- pass, or to dead, if parking is on and the row has used up its attempts.
  pub run_once_keeps :
      (now : ℕ) (rows : List (Row P))
      → Aligned (Evolves s (run_once s w now rows).0.accepted) rows (run_once s w now rows).0.rows
  unfolding run_once claim
  run_once_keeps now rows =
      relay_loaded-Aligned w.load_fails rows (claim s.lease now s.batch_size rows).0
        (claim s.lease now s.batch_size rows).1
        (Aligned-map (Evolves s []) _
          (claim_row-Evolves s [] (due_rows now s.batch_size rows) (now + lease_of s.lease)) rows)

  pub publish_now-Keeps : (r : Record P) (p : Pass P) → Keeps p (publish_now s w r p).0
  unfolding publish_now
  publish_now-Keeps r p = elim (Option-cases (w.publish 0)) [
    | inl f ↦
        rw (publish_now, f)
          (
            marked-Aligned 0 r.id (w.clock 0) (p.accepted ++ r.id ∷ []) p.rows
                (Accepted-new p.accepted r.id),
            Accepted-append p.accepted r.id,
          )
    | inr (reason, f) ↦ elim (Bool-cases (w.stopped_after 0)) [
      | inl e ↦ rw (publish_now, f, e) (Keeps-refl p)
      | inr e ↦ rw (publish_now, f, e) (fail-Aligned 0 r reason p.accepted p.rows, λ id h. h)
    ]
  ]
