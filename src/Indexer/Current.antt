-- ===== src/Indexer/Current.antt =====
-- One Sync (services/indexer/worker/indexer.go) whose calls are answered.
use social_ai_backend.Common.{
  ℕ, ◌≡◌, refl, sym, ap, subst, ◌∙◌, inl, inr, true, false, not, ◌&&◌, Option, some, arith, ltb,
  ltb→ge, Bool-cases, Option-cases, Text, text_eq, text_eq_refl, is_empty, ok,
}
use social_ai_backend.Indexer.{
  PostRow, Stored, State, World, Result, set_at, load, has_no_embedding, with_embedding,
  store_embedding, embed_stored, embed, enriched, doc_of, index_versioned, indexed, write_doc, sync,
}
use social_ai_backend.Indexer.Steps.{Behind-refl, IsConsistent}
use social_ai_backend.Indexer.Consistent.{
  written-IsConsistent, changed-IsConsistent, with_embedding-Changes,
}

module _ {V : Type 0} where
  -- The post's document is the projection of its row.
  abbrev pub IsCurrent : Text → State V → Type 0
  IsCurrent id s =
      (now : PostRow V) × (s.rows id ≡ some now)
      × (d : Stored V) × (s.docs id ≡ some d)
      × (d.version ≡ now.version)
      × (d.doc ≡ doc_of now)

  -- The two tables agree on all other posts.
  abbrev pub SameElsewhere : Text → State V → State V → Type 0
  SameElsewhere id s s' =
      (j : Text) → text_eq id j ≡ false → (s'.rows j ≡ s.rows j) × (s'.docs j ≡ s.docs j)

  -- The world answers every call of the database and of Elasticsearch; OpenAI may fail.
  pub record Answers (w : World V) : Type 0 where
    pub db : (n : ℕ) → w.fails n ≡ false
    pub es : w.es_fails ≡ false

  indexed-IsCurrent :
      (row : PostRow V) (s : State V)
      → IsConsistent s
      → s.rows row.id ≡ some row
      → IsCurrent row.id (indexed row s)
  unfolding indexed index_versioned
  indexed-IsCurrent row s v at = elim (Option-cases (s.docs row.id)) [
    | inl e ↦ (row, at, _, rw (index_versioned, e, text_eq_refl row.id) refl, refl, refl)
    | inr (old, e) ↦ elim (Bool-cases (ltb old.version row.version)) [
      | inl f ↦ (row, at, _, rw (index_versioned, e, f, text_eq_refl row.id) refl, refl, refl)
      | inr f ↦
          let (r, same, (cur, r_at, b), doc, version) = v.projected row.id old e in
          let is_row : cur ≡ row = ground (arith, sym r_at ∙ ap s.rows same ∙ at) in
          let newest : r.version ≡ cur.version = omega (
            arith,
            b.not_ahead,
            version,
            ltb→ge old.version row.version f,
            ap (λ (p : PostRow V). p.version) is_row,
          ) in
          (
            row,
            at,
            old,
            rw (index_versioned, e, f) e,
            omega (arith, version, newest, ap (λ (p : PostRow V). p.version) is_row),
            doc ∙ ap doc_of (b.up_to_date newest ∙ is_row),
          )
    ]
  ]

  indexed-elsewhere : (row : PostRow V) (s : State V) → SameElsewhere row.id s (indexed row s)
  unfolding indexed index_versioned
  indexed-elsewhere row s j h = (
    refl,
    elim (Option-cases (s.docs row.id)) [
      | inl e ↦ rw (index_versioned, e, h) refl
      | inr (old, e) ↦ elim (Bool-cases (ltb old.version row.version)) [
        | inl f ↦ rw (index_versioned, e, f, h) refl
        | inr f ↦ rw (index_versioned, e, f) refl
      ]
    ],
  )

  -- What the enrichment of a row that was just read leaves.
  abbrev Enriched : PostRow V → State V → State V × Result (PostRow V) → Type 0
  Enriched row s out =
      (s' : State V) × (row' : PostRow V) × (out ≡ (s', ok row'))
      × (row'.id ≡ row.id)
      × (s'.rows row.id ≡ some row')
      × (s'.ids ≡ s.ids)
      × SameElsewhere row.id s s'
      × IsConsistent s'

  unchanged-Enriched :
      (row : PostRow V) (s : State V)
      → IsConsistent s
      → s.rows row.id ≡ some row
      → Enriched row s (s, ok row)
  unchanged-Enriched row s v at = (s, row, refl, refl, at, refl, λ j h. (refl, refl), v)

  store_embedding_fits :
      (row : PostRow V) (emb : V) (s : State V)
      → s.rows row.id ≡ some row
      → has_no_embedding row && not row.deleted ≡ true
      → store_embedding row.id emb s
        ≡ some (
          record s { rows = set_at row.id (with_embedding emb row) s.rows },
          with_embedding emb row,
        )
  unfolding store_embedding
  store_embedding_fits row emb s at fits = rw (store_embedding, at, fits) refl

  embed_stored-Enriched :
      (w : World V) (row : PostRow V) (emb : V) (s : State V)
      → Answers w
      → IsConsistent s
      → s.rows row.id ≡ some row
      → row.deleted ≡ false
      → has_no_embedding row ≡ true
      → Enriched row s (embed_stored w row emb s)
  unfolding embed_stored
  embed_stored-Enriched w row emb s answers v at live empty = (
    record s { rows = set_at row.id (with_embedding emb row) s.rows },
    with_embedding emb row,
    rw (embed_stored, store_embedding_fits row emb s at (ground (arith, live, empty)), answers.db 1)
        refl,
    refl,
    rw (text_eq_refl row.id) refl,
    refl,
    λ j h. (rw h refl, refl),
    changed-IsConsistent s row.id row (with_embedding emb row) at (with_embedding-Changes emb row)
        v,
  )

  embed-Enriched :
      (w : World V) (embedding_of : Text → Option V) (row : PostRow V) (s : State V)
      → Answers w
      → IsConsistent s
      → s.rows row.id ≡ some row
      → row.deleted ≡ false
      → has_no_embedding row ≡ true
      → Enriched row s (embed w embedding_of row s)
  unfolding embed
  embed-Enriched w embedding_of row s answers v at live empty =
      elim (Option-cases (embedding_of row.message)) [
        | inl e ↦ rw (embed, e) (unchanged-Enriched row s v at)
        | inr (emb, e) ↦ rw (embed, e) (embed_stored-Enriched w row emb s answers v at live empty)
      ]

  enriched-Enriched :
      (w : World V) (row : PostRow V) (s : State V)
      → Answers w
      → IsConsistent s
      → s.rows row.id ≡ some row
      → Enriched row s (enriched w row s)
  unfolding enriched
  enriched-Enriched w row s answers v at = elim (Option-cases w.embedding_of) [
    | inl e ↦ rw (enriched, e) (unchanged-Enriched row s v at)
    | inr (embedding_of, e) ↦
        elim (Bool-cases
          (not row.deleted && (has_no_embedding row && not (is_empty row.message)))) [
            | inr skip ↦ rw (enriched, e, skip) (unchanged-Enriched row s v at)
            | inl wanted ↦
                rw (enriched, e, wanted)
                  (embed-Enriched w embedding_of row s answers v at (ground (arith, wanted))
                    (ground (arith, wanted)))
          ]
  ]

  write_doc_lem :
      (w : World V) (s : State V) (row : PostRow V)
      → w.es_fails ≡ false
      → write_doc w (s, ok row) ≡ (indexed row s, ok tt)
  unfolding write_doc
  write_doc_lem w s row e = rw e refl

  sync_found :
      (w : World V) (id : Text) (s : State V) (row : PostRow V)
      → w.fails 0 ≡ false
      → s.rows id ≡ some row
      → sync w id s ≡ write_doc w (enriched w row s)
  unfolding sync load
  sync_found w id s row calm at = rw (sync, calm, at) refl

  -- From any state that the indexers can leave, a Sync whose calls of the database and of Elasticsearch are
  -- answered succeeds, whether or not OpenAI answers, and makes the post's document the projection of the
  -- post's row; it touches no other post and leaves a state of the same kind.
  pub sync-IsCurrent :
      (w : World V) (id : Text) (row : PostRow V) (s : State V)
      → Answers w
      → IsConsistent s
      → s.rows id ≡ some row
      → (s' : State V) × (sync w id s ≡ (s', ok tt))
        × IsCurrent id s'
        × (s'.ids ≡ s.ids)
        × SameElsewhere id s s'
        × IsConsistent s'
  sync-IsCurrent w id row s answers v at =
      let named : row.id ≡ id = v.keyed id row at in
      let (s', row', out, same, at', ids, elsewhere, v') =
        enriched-Enriched w row s answers v (ap s.rows named ∙ at) in
      let here : s'.rows row'.id ≡ some row' = ap s'.rows same ∙ at' in
      let whole : row'.id ≡ id = same ∙ named in
      (
        indexed row' s',
        sync_found w id s row (answers.db 0) at
            ∙ ap (write_doc w) out
            ∙ write_doc_lem w s' row' answers.es,
        subst (λ j. IsCurrent j (indexed row' s')) whole (indexed-IsCurrent row' s' v' here),
        unfold indexed in ids,
        λ j h.
            let far = subst (λ i. text_eq i j ≡ false) (sym named) h in
            let further = subst (λ i. text_eq i j ≡ false) (sym whole) h in
            let a = elsewhere j far in
            let b = indexed-elsewhere row' s' j further in (b.0 ∙ a.0, b.1 ∙ a.1),
        written-IsConsistent row' s' (row', here, Behind-refl row') v',
      )
