-- ===== src/Indexer/Consistent.antt =====
-- What the steps of the indexers (services/indexer/worker/indexer.go) keep: every row in hand was read from
-- the table, and every document is the projection of a row that was.
use social_ai_backend.Common.{
  ◌⊎◌, ℕ, ◌+◌, ◌≡◌, refl, sym, ap, subst, ◌∙◌, inl, inr, true, false, not, ◌&&◌, Option, none, some,
  arith, ltb, Bool-cases, Option-cases, All-weaken, All-In, All-of_In, Text, text_eq, text_eq_refl,
  text_eq→eq,
}
use social_ai_backend.Indexer.{
  PostRow, PostSearchDoc, Stored, State, set_at, has_no_embedding, with_embedding, store_embedding,
  doc_of, index_versioned, indexed,
}
use social_ai_backend.Indexer.Steps.{
  Behind, Behind-refl, Changes, Behind-Changes, WasRead, IsConsistent, System, Step, loads, embeds,
  writes, drops, creates, changes, IsFaithful,
}

module _ {V : Type 0} where
  -- A row that was read stays one when a row changes.
  WasRead-changed :
      (rows : Text → Option (PostRow V)) (id : Text) (old now : PostRow V)
      → rows id ≡ some old
      → Changes old now
      → (r : PostRow V) → WasRead rows r
      → WasRead (set_at id now rows) r
  WasRead-changed rows id old now at c r (cur, e, b) = elim (Bool-cases (text_eq id r.id)) [
    | inl same ↦
        let is_old : old ≡ cur = ground (arith, sym at ∙ ap rows (text_eq→eq id r.id same) ∙ e) in
        (now, rw same refl, Behind-Changes (subst (Behind r) (sym is_old) b) c)
    | inr other ↦ (cur, rw other e, b)
  ]

  WasRead-created :
      (rows : Text → Option (PostRow V)) (new : PostRow V)
      → rows new.id ≡ none
      → (r : PostRow V) → WasRead rows r
      → WasRead (set_at new.id new rows) r
  WasRead-created rows new free r (cur, e, b) = elim (Bool-cases (text_eq new.id r.id)) [
    | inl same ↦ absurd (ground (arith, sym free ∙ ap rows (text_eq→eq new.id r.id same) ∙ e))
    | inr other ↦ (cur, rw other e, b)
  ]

  -- A reading of the rows that carries over to other rows carries the documents over.
  projected_over :
      (s : State V) (rows : Text → Option (PostRow V))
      → ((r : PostRow V) → WasRead s.rows r → WasRead rows r)
      → IsConsistent s
      → (id : Text) (d : Stored V) → s.docs id ≡ some d
      → (r : PostRow V) × (r.id ≡ id)
        × WasRead rows r
        × (d.doc ≡ doc_of r)
        × (d.version ≡ r.version)
  projected_over s rows f v id d e =
      let (r, same, was, doc, version) = v.projected id d e in (r, same, f r was, doc, version)

  set_at-keyed :
      (rows : Text → Option (PostRow V)) (id : Text) (new : PostRow V)
      → new.id ≡ id
      → ((j : Text) (r : PostRow V) → rows j ≡ some r → r.id ≡ j)
      → (j : Text) (r : PostRow V) → set_at id new rows j ≡ some r
      → r.id ≡ j
  set_at-keyed rows id new e h j r k = elim (Bool-cases (text_eq id j)) [
    | inl same ↦
        let is_new : new ≡ r = ground (arith, rw same at k) in
        ap (λ (q : PostRow V). q.id) (sym is_new) ∙ e ∙ text_eq→eq id j same
    | inr other ↦ h j r (rw other at k)
  ]

  -- What `store_embedding` did: the row of the post had no embedding and was live.
  pub store_embedding_lem :
      (id : Text) (emb : V) (s s' : State V) (now : PostRow V)
      → store_embedding id emb s ≡ some (s', now)
      → (old : PostRow V) × (s.rows id ≡ some old)
        × (old.deleted ≡ false)
        × (old.embedding ≡ none)
        × (now ≡ with_embedding emb old)
        × (s' ≡ record s { rows = set_at id now s.rows })
  unfolding store_embedding
  store_embedding_lem id emb s s' now h = elim (Option-cases (s.rows id)) [
    | inl e ↦ absurd (ground (arith, e, h))
    | inr (old, e) ↦ elim (Bool-cases (has_no_embedding old && not old.deleted)) [
      | inr bad ↦ absurd (ground (arith, e, bad, h))
      | inl fits ↦
          let done : ◌≡◌ {A = Option (State V × PostRow V)}
              (some (
                record s { rows = set_at id (with_embedding emb old) s.rows },
                with_embedding emb old,
              ))
              (some (s', now)) =
            rw (store_embedding, e, fits) at h in
          let now_is : with_embedding emb old ≡ now =
            ap (λ (o : Option (State V × PostRow V)). elim o [ none ↦ now | some p ↦ p.1 ]) done in
          (
            old,
            e,
            ground (arith, fits),
            no_embedding old (ground (arith, fits)),
            sym now_is,
            sym (
                  ap (λ (o : Option (State V × PostRow V)). elim o [ none ↦ s' | some p ↦ p.0 ])
                    done)
                ∙ ap (λ (r : PostRow V). record s { rows = set_at id r s.rows }) now_is,
          )
    ]
  ]
    where
      no_embedding : (r : PostRow V) → has_no_embedding r ≡ true → r.embedding ≡ none
      no_embedding r k = elim (Option-cases r.embedding) [
        | inl e ↦ e
        | inr (v, e) ↦ absurd (ground (arith, e, k))
      ]

  pub with_embedding-Changes : (emb : V) (old : PostRow V) → Changes old (with_embedding emb old)
  with_embedding-Changes emb old = record {
    same_id = refl;
    same_author = refl;
    same_message = refl;
    same_type = refl;
    same_time = refl;
    newer = omega arith;
  }

  -- The row that an indexer goes on with is the row that it stored, though it read the other columns before.
  pub in_hand-eq-stored :
      (r old : PostRow V) (emb : V)
      → Behind r old
      → r.deleted ≡ false
      → old.deleted ≡ false
      → ◌≡◌ {A = PostRow V}
          (record r { embedding = some emb; version = old.version + 1 })
          (with_embedding emb old)
  in_hand-eq-stored r old emb b live now_live =
      ground
        (arith, b.same_id, b.same_author, b.same_message, b.same_type, b.same_time, live, now_live)

  -- A document that stands in the index after a write was there, or is the one written.
  pub index_versioned-cases :
      (j : Text) (doc : PostSearchDoc V) (version : ℕ) (docs : Text → Option (Stored V)) (id : Text)
      (d : Stored V)
      → index_versioned j doc version docs id ≡ some d
      → (docs id ≡ some d) ⊎ ((j ≡ id) × (d.doc ≡ doc) × (d.version ≡ version))
  unfolding index_versioned
  index_versioned-cases j doc version docs id d h = elim (Option-cases (docs j)) [
    | inl e ↦ placed (rw (index_versioned, e) at h)
    | inr (old, e) ↦ elim (Bool-cases (ltb old.version version)) [
      | inl f ↦ placed (rw (index_versioned, e, f) at h)
      | inr f ↦ inl (rw (index_versioned, e, f) at h)
    ]
  ]
    where
      placed :
          set_at j (record { doc = doc; version = version }) docs id ≡ some d
          → (docs id ≡ some d) ⊎ ((j ≡ id) × (d.doc ≡ doc) × (d.version ≡ version))
      placed k = elim (Bool-cases (text_eq j id)) [
        | inl e ↦ inr (text_eq→eq j id e, ground (arith, rw e at k), ground (arith, rw e at k))
        | inr e ↦ inl (rw e at k)
      ]

  pub written-IsConsistent :
      (r : PostRow V) (s : State V) → WasRead s.rows r → IsConsistent s → IsConsistent (indexed r s)
  unfolding indexed
  written-IsConsistent r s was v = record {
    keyed = v.keyed;
    projected = λ id d h. elim (index_versioned-cases r.id (doc_of r) r.version s.docs id d h) [
      | inl old ↦ v.projected id d old
      | inr (e, f, g) ↦ (r, e, was, f, g)
    ];
  }

  pub changed-IsConsistent :
      (s : State V) (id : Text) (old now : PostRow V)
      → s.rows id ≡ some old
      → Changes old now
      → IsConsistent s
      → IsConsistent (record s { rows = set_at id now s.rows })
  changed-IsConsistent s id old now at c v = record {
    keyed = set_at-keyed s.rows id now (sym c.same_id ∙ v.keyed id old at) v.keyed;
    projected = projected_over s (set_at id now s.rows) (WasRead-changed s.rows id old now at c) v;
  }

  pub Step-IsFaithful : {x y : System V} → Step x y → IsFaithful x → IsFaithful y
  Step-IsFaithful {x} (loads id r e) v = record {
    consistent = v.consistent;
    all_read = ((r, ap x.state.rows (v.consistent.keyed id r e) ∙ e, Behind-refl r), v.all_read);
  }
  Step-IsFaithful {x} (embeds r now emb s' m live empty h) v =
      let (old, at, now_live, _, is_now, is_s') = store_embedding_lem r.id emb x.state s' now h in
      let (cur, e, b) = All-In (WasRead x.state.rows) x.in_hand v.all_read m in
      let is_old : cur ≡ old = ground (arith, sym e ∙ at) in
      let c : Changes old now = subst (Changes old) (sym is_now) (with_embedding-Changes emb old) in
      let over = WasRead-changed x.state.rows r.id old now at c in
      let stored : ◌≡◌ {A = PostRow V} (record r { embedding = some emb; version = now.version })
          now =
        ap (λ (n : PostRow V). record r { embedding = some emb; version = n.version }) is_now
        ∙ in_hand-eq-stored r old emb (subst (Behind r) is_old b) live now_live
        ∙ sym is_now in
      let at_id : r.id ≡ now.id = sym (v.consistent.keyed r.id old at) ∙ c.same_id in
      let there : set_at r.id now x.state.rows now.id ≡ some now =
        rw (subst (λ t. text_eq r.id t ≡ true) at_id (text_eq_refl r.id)) refl in
      rw is_s' (record {
        consistent = changed-IsConsistent x.state r.id old now at c v.consistent;
        all_read = (
          subst (WasRead (set_at r.id now x.state.rows)) (sym stored) (now, there, Behind-refl now),
          All-weaken _ _ over x.in_hand v.all_read,
        );
      })
  Step-IsFaithful {x} (writes r m) v = record {
    consistent =
        written-IsConsistent r x.state (All-In (WasRead x.state.rows) x.in_hand v.all_read m)
          v.consistent;
    all_read = unfold indexed in v.all_read;
  }
  Step-IsFaithful {x} (drops rest f) v = record {
    consistent = v.consistent;
    all_read = All-of_In _ rest (λ r m. All-In (WasRead x.state.rows) x.in_hand v.all_read (f r m));
  }
  Step-IsFaithful {x} (creates r free) v = record {
    consistent = record {
      keyed = set_at-keyed x.state.rows r.id r refl v.consistent.keyed;
      projected =
          projected_over x.state (set_at r.id r x.state.rows) (WasRead-created x.state.rows r free)
            v.consistent;
    };
    all_read = All-weaken _ _ (WasRead-created x.state.rows r free) x.in_hand v.all_read;
  }
  Step-IsFaithful {x} (changes id old now at c) v = record {
    consistent = changed-IsConsistent x.state id old now at c v.consistent;
    all_read = All-weaken _ _ (WasRead-changed x.state.rows id old now at c) x.in_hand v.all_read;
  }
