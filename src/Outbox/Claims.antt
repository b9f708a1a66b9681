-- ===== src/Outbox/Claims.antt =====
-- Two relays on one table: the claims of `Pending` (shared/outbox/pgstore.go), and what happens between them.
use social_ai_backend.Common.{
  ℕ, zero, suc, ◌+◌, ◌≤◌, ◌<◌, ◌≡◌, ◌≢◌, refl, sym, ap, subst, ◌∙◌, inl, inr, Bool, true, false,
  ◌&&◌, List, [], ◌∷◌, leb, leb→le, ◌==◌, ==_iff, arith, any, any-In, any-cases, map, All, All-In,
  In, here, there, In-cons, In-snoc, In-map_inv, In-keep_inv, In-take, Bool-cases, Text,
}
use social_ai_backend.Common.Int.{ℤ}
use social_ai_backend.Common.Sort.{sort-In}
use social_ai_backend.Outbox.Table.{
  Row, Event, Record, Outbox, is_pending, is_due, is_prunable, older, has_id, claim, claim_row,
  due_rows, lease_of, record_of, enqueue, publish_row, mark_published, fail_row, mark_failed, prune,
}

module _ (P : Type 0) where
  -- What relays and services do to the table.
  pub data Change : Type 0 where
    claims : ℤ → ℕ → ℕ → Change
    publishes : ℕ → ℕ → Change
    fails : ℕ → ℕ → ℕ → Text → Bool → Change
    prunes : ℕ → ℕ → ℕ → Change
    enqueues : Event P → ℕ → ℕ → Change

module _ {P : Type 0} where
  -- A claimed record is a row of the subquery.
  claim-In :
      (lease : ℤ) (now limit : ℕ) (rows : List (Row P)) {r : Record P}
      → In r (claim lease now limit rows).1
      → (d : Row P) × In d (due_rows now limit rows) × (d.id ≡ r.id)
  unfolding claim
  claim-In lease now limit rows m =
      let (x, in_sorted, e) = In-map_inv record_of _ m in
      let kept = In-keep_inv _ rows (sort-In older _ in_sorted) in
      let (d, in_due, same) = any-cases (λ d. has_id d.id x) (due_rows now limit rows) kept.1 in
      (d, in_due, (==_iff d.id x.id).0 same ∙ subst (λ (y : Record P). x.id ≡ y.id) e refl)

  due_rows-In :
      (now limit : ℕ) (rows : List (Row P)) {d : Row P}
      → In d (due_rows now limit rows)
      → In d rows × (is_due now d ≡ true)
  unfolding due_rows
  due_rows-In now limit rows m = In-keep_inv (is_due now) rows (sort-In older _ (In-take limit _ m))

  unfoldable pub changed : Change P → Outbox P → Outbox P
  changed (claims lease now limit) box = record box { rows = (claim lease now limit box.rows).0 }
  changed (publishes id now) box = record box { rows = mark_published id now box.rows }
  changed (fails id attempts next last_err is_dead) box = record box {
    rows = mark_failed id attempts next last_err is_dead box.rows;
  }
  changed (prunes now retention batch) box = record box {
    rows = (prune now retention batch box.rows).0;
  }
  changed (enqueues ev not_before now) box = (enqueue ev not_before now box).0

  abbrev pub changed_all : List (Change P) → Outbox P → Outbox P
  changed_all [] box = box
  changed_all (c ∷ cs) box = changed_all cs (changed c box)

  -- The change is no `MarkFailed` that makes the record due at the time.
  abbrev pub Spares : ℕ → ℕ → Change P → Type 0
  Spares id at (fails i attempts next last_err is_dead) = i ≡ id → is_dead ≡ false → at < next
  Spares id at _ = Unit {0}

  -- The record is not due at the time, and its id will not be given again.
  record IsHeld (id at : ℕ) (box : Outbox P) : Type 0 where
    given : id < box.next_id
    not_due : (x : Row P) → In x box.rows → x.id ≡ id → is_due at x ≢ true

  -- A row that a claim took is not due before its lease runs out.
  leased :
      (due : List (Row P)) (until now : ℕ) (x : Row P)
      → now < until
      → any (λ d. has_id d.id x) due ≡ true
      → is_due now (claim_row due until x) ≢ true
  leased due until now x h a k =
      let le : leb until now ≡ true = ground (arith, a, k) in
      absurd (omega (arith, leb→le until now le))

  due_later : (t at : ℕ) (x : Row P) → t ≤ at → is_due t x ≡ true → is_due at x ≡ true
  due_later t at x h k = ground (arith, k)

  -- A claim leaves a held record alone, or leases it for longer.
  claim_row_held :
      (lease : ℤ) (now limit id at : ℕ) (box : Outbox P) (x : Row P)
      → IsHeld id at box
      → In x box.rows
      → x.id ≡ id
      → is_due at (claim_row (due_rows now limit box.rows) (now + lease_of lease) x) ≢ true
  claim_row_held lease now limit id at box x h m same k =
      elim (Bool-cases (any (λ d. has_id d.id x) (due_rows now limit box.rows))) [
        | inr e ↦ h.not_due x m same (rw e at k)
        | inl e ↦
            let le : leb (now + lease_of lease) at ≡ true = ground (arith, e, k) in
            let early : now ≤ at = omega (arith, leb→le (now + lease_of lease) at le) in
            let (d, in_due, is_x) =
              any-cases (λ d. has_id d.id x) (due_rows now limit box.rows) e in
            let (in_rows, due) = due_rows-In now limit box.rows in_due in
            h.not_due d in_rows ((==_iff d.id x.id).0 is_x ∙ same) (due_later now at d early due)
      ]

  prune-In :
      (now retention batch : ℕ) (rows : List (Row P)) {x : Row P}
      → In x (prune now retention batch rows).0
      → In x rows
  unfolding prune
  prune-In now retention batch [] m = elim m [ ]
  prune-In now retention zero (r ∷ rows) m = m
  prune-In now retention (suc batch) (r ∷ rows) m =
      elim (Bool-cases (is_prunable now retention r)) [
        | inl e ↦ there (prune-In now retention batch rows (rw (prune, e) at m))
        | inr e ↦ elim (In-cons (rw (prune, e) at m)) [
          | inl is_r ↦ subst (λ y. In y (r ∷ rows)) is_r here
          | inr rest ↦ there (prune-In now retention (suc batch) rows rest)
        ]
      ]

  fail_row_held :
      (i attempts next : ℕ) (last_err : Text) (is_dead : Bool) (id at : ℕ) (x : Row P)
      → Spares id at (fails i attempts next last_err is_dead)
      → x.id ≡ id
      → is_due at x ≢ true
      → is_due at (fail_row i attempts next last_err is_dead x) ≢ true
  fail_row_held i attempts next last_err is_dead id at x spares same h k =
      elim (Bool-cases (has_id i x && is_pending x.status)) [
        | inr e ↦ h (rw e at k)
        | inl e ↦ elim (Bool-cases is_dead) [
          | inl gone ↦ absurd (ground (arith, rw (e, gone) at k))
          | inr stays ↦
              let is_i : i == x.id ≡ true = ground (arith, e) in
              let late : at < next = spares ((==_iff i x.id).0 is_i ∙ same) stays in
              let le : leb next at ≡ true = ground (arith, rw (e, stays) at k) in
              absurd (omega (arith, late, leb→le next at le))
        ]
      ]

  publish_row_held :
      (i now at : ℕ) (x : Row P) → is_due at x ≢ true → is_due at (publish_row i now x) ≢ true
  publish_row_held i now at x h k = elim (Bool-cases (has_id i x && is_pending x.status)) [
    | inr e ↦ h (rw e at k)
    | inl e ↦ absurd (ground (arith, rw e at k))
  ]

  -- A table whose rows come one by one from those of a table in which the record is held.
  mapped-IsHeld :
      (f : Row P → Row P) (id at : ℕ) (box : Outbox P)
      → ((x : Row P) → (f x).id ≡ x.id)
      → ((x : Row P) → In x box.rows → x.id ≡ id → is_due at (f x) ≢ true)
      → id < box.next_id
      → IsHeld id at (record box { rows = map f box.rows })
  mapped-IsHeld f id at box keeps_id held given = record {
    given = given;
    not_due = λ y m same k.
        let (x, in_rows, e) = In-map_inv f box.rows m in
        held x in_rows (sym (keeps_id x) ∙ subst (λ z. z.id ≡ id) (sym e) same)
          (subst (λ z. is_due at z ≡ true) (sym e) k);
  }

  changed-IsHeld :
      (c : Change P) (id at : ℕ) (box : Outbox P)
      → Spares id at c
      → IsHeld id at box
      → IsHeld id at (changed c box)
  unfolding changed claim mark_published mark_failed enqueue
  changed-IsHeld (claims lease now limit) id at box s h =
      mapped-IsHeld _ id at box (λ x. ground arith)
        (λ x. claim_row_held lease now limit id at box x h) h.given
  changed-IsHeld (publishes i now) id at box s h =
      mapped-IsHeld _ id at box (λ x. ground arith)
        (λ x m same. publish_row_held i now at x (h.not_due x m same)) h.given
  changed-IsHeld (fails i attempts next last_err is_dead) id at box s h =
      mapped-IsHeld _ id at box (λ x. ground arith)
        (λ x m same.
          fail_row_held i attempts next last_err is_dead id at x s same (h.not_due x m same))
        h.given
  changed-IsHeld (prunes now retention batch) id at box s h = record {
    given = h.given;
    not_due = λ x m. h.not_due x (prune-In now retention batch box.rows m);
  }
  changed-IsHeld (enqueues ev not_before now) id at box s h = record {
    given = omega (arith, h.given);
    not_due = λ x m same. elim (In-snoc box.rows m) [
      | inl old ↦ h.not_due x old same
      | inr new ↦
          let next_is : box.next_id ≡ id = ap (λ (y : Row P). y.id) new ∙ same in
          absurd (omega (arith, h.given, next_is))
    ];
  }

  changed_all-IsHeld :
      (cs : List (Change P)) (id at : ℕ) (box : Outbox P)
      → All (Spares id at) cs
      → IsHeld id at box
      → IsHeld id at (changed_all cs box)
  changed_all-IsHeld [] id at box s h = h
  changed_all-IsHeld (c ∷ cs) id at box s h =
      changed_all-IsHeld cs id at (changed c box) s.1 (changed-IsHeld c id at box s.0 h)

  claimed-IsHeld :
      (lease : ℤ) (now limit at : ℕ) (box : Outbox P) (r : Record P)
      → at < now + lease_of lease
      → All (λ x. x.id < box.next_id) box.rows
      → In r (claim lease now limit box.rows).1
      → IsHeld r.id at (record box { rows = (claim lease now limit box.rows).0 })
  unfolding claim
  claimed-IsHeld lease now limit at box r early fresh m =
      let (d, in_due, e) = claim-In lease now limit box.rows m in
      mapped-IsHeld _ r.id at box (λ x. ground arith)
        (λ x in_rows same. leased (due_rows now limit box.rows) (now + lease_of lease) at x early (
          any-In (λ d. has_id d.id x) (due_rows now limit box.rows) in_due
            ((==_iff d.id x.id).1 (e ∙ sym same))))
        (subst (λ (n : ℕ). n < box.next_id) e
          (All-In _ box.rows fresh (due_rows-In now limit box.rows in_due).0))

  -- A record that a relay claimed is in no claim of another relay before its lease runs out, whatever
  -- relays and services do to the table between the two claims, claims of other relays among it, unless
  -- they do a `MarkFailed` of this very record that makes it due again by the time of the second claim.
  -- The ids of the table are to be lower than the next one that it gives.
  pub claims_disjoint :
      (lease lease' : ℤ) (now now' limit limit' : ℕ) (box : Outbox P) (between : List (Change P))
      → now' < now + lease_of lease
      → All (λ x. x.id < box.next_id) box.rows
      → (r r' : Record P) → In r (claim lease now limit box.rows).1
      → All (Spares r.id now') between
      → In r'
          (claim lease' now' limit'
            (changed_all between (record box { rows = (claim lease now limit box.rows).0 })).rows).1
      → r'.id ≢ r.id
  claims_disjoint lease lease' now now' limit limit' box between early fresh r r' m spares m' same =
      let first = record box { rows = (claim lease now limit box.rows).0 } in
      let h =
        changed_all-IsHeld between r.id now' first spares
          (claimed-IsHeld lease now limit now' box r early fresh m) in
      let rows = (changed_all between first).rows in
      let (d, in_due, e) = claim-In lease' now' limit' rows m' in
      let (in_rows, due) = due_rows-In now' limit' rows in_due in h.not_due d in_rows (e ∙ same) due
