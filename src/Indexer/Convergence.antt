-- ===== src/Indexer/Convergence.antt =====
-- The index in every reachable state (services/indexer/worker/indexer.go).
use social_ai_backend.Common.{
  ℕ, ◌≤◌, ◌≡◌, refl, sym, ap, ◌∙◌, inl, inr, Option, some, arith, ltb, Bool-cases, Option-cases,
  Text, text_eq, text_eq→eq,
}
use social_ai_backend.Indexer.{
  PostRow, PostSearchDoc, Stored, set_at, doc_of, index_versioned, indexed,
}
use social_ai_backend.Indexer.Steps.{
  System, Step, loads, embeds, writes, drops, creates, changes, Reach, here, next, IsFaithful,
}
use social_ai_backend.Indexer.Consistent.{store_embedding_lem, Step-IsFaithful}

module _ {V : Type 0} where
  -- The index holds a document for the post, of the version or a higher one.
  abbrev pub HoldsFrom : ℕ → (Text → Option (Stored V)) → Text → Type 0
  HoldsFrom n docs id = (d : Stored V) × (docs id ≡ some d) × (n ≤ d.version)

  set_at-HoldsFrom :
      (j id : Text) (new d : Stored V) (docs : Text → Option (Stored V))
      → docs id ≡ some d
      → (j ≡ id → d.version ≤ new.version)
      → HoldsFrom d.version (set_at j new docs) id
  set_at-HoldsFrom j id new d docs h up = elim (Bool-cases (text_eq j id)) [
    | inl e ↦ (new, rw e refl, up (text_eq→eq j id e))
    | inr e ↦ (d, rw e h, omega arith)
  ]

  pub index_versioned-HoldsFrom :
      (j : Text) (doc : PostSearchDoc V) (version : ℕ) (docs : Text → Option (Stored V)) (id : Text)
      (d : Stored V)
      → docs id ≡ some d
      → HoldsFrom d.version (index_versioned j doc version docs) id
  unfolding index_versioned
  index_versioned-HoldsFrom j doc version docs id d h = elim (Option-cases (docs j)) [
    | inl e ↦
        rw (index_versioned, e)
          (set_at-HoldsFrom j id (record { doc = doc; version = version }) d docs h
            (λ same. absurd (ground (arith, sym e ∙ ap docs same ∙ h))))
    | inr (old, e) ↦ elim (Bool-cases (ltb old.version version)) [
      | inl f ↦
          rw (index_versioned, e, f)
            (set_at-HoldsFrom j id (record { doc = doc; version = version }) d docs h
              (λ same. ground (arith, f, sym e ∙ ap docs same ∙ h)))
      | inr f ↦ rw (index_versioned, e, f) (d, h, omega arith)
    ]
  ]

  Step-HoldsFrom :
      {x y : System V}
      → Step x y
      → (id : Text) (n : ℕ) → HoldsFrom n x.state.docs id
      → HoldsFrom n y.state.docs id
  Step-HoldsFrom (loads j r e) id n h = h
  Step-HoldsFrom {x} (embeds r now emb s' m live empty at) id n h =
      rw (store_embedding_lem r.id emb x.state s' now at).5 h
  Step-HoldsFrom {x} (writes r m) id n (d, e, up) =
      let (d', e', up') = index_versioned-HoldsFrom r.id (doc_of r) r.version x.state.docs id d e in
      unfold indexed in (d', e', omega (arith, up, up'))
  Step-HoldsFrom (drops rest f) id n h = h
  Step-HoldsFrom (creates r free) id n h = h
  Step-HoldsFrom (changes j old now at c) id n h = h

  Reach-HoldsFrom :
      {x y : System V}
      → Reach x y
      → (id : Text) (n : ℕ) → HoldsFrom n x.state.docs id
      → HoldsFrom n y.state.docs id
  Reach-HoldsFrom here id n h = h
  Reach-HoldsFrom (next r st) id n h = Step-HoldsFrom st id n (Reach-HoldsFrom r id n h)

  pub Reach-IsFaithful : {x y : System V} → Reach x y → IsFaithful x → IsFaithful y
  Reach-IsFaithful here v = v
  Reach-IsFaithful (next r st) v = Step-IsFaithful st (Reach-IsFaithful r v)

  -- From a state in which every document is the projection of a row as it was read at some time:
  -- however the calls of many indexers interleave with one another and with the creation and the
  -- changes of posts, whatever is delivered twice, late or out of order and whatever is dropped, a
  -- document in the index has at most the version of its post's row, at this version it is the
  -- projection of the row as it stands, and the version of a document never falls.
  pub index_converges :
      {x y : System V}
      → IsFaithful x
      → Reach x y
      → ((id : Text) (d : Stored V)
          → y.state.docs id ≡ some d
          → (now : PostRow V) × (y.state.rows id ≡ some now)
            × (d.version ≤ now.version)
            × (d.version ≡ now.version → d.doc ≡ doc_of now))
        × ((id : Text) (d : Stored V)
            → x.state.docs id ≡ some d
            → (d' : Stored V) × (y.state.docs id ≡ some d') × (d.version ≤ d'.version))
  index_converges {x} {y} v r = (
    λ id d h.
        let (old, same, (now, at, b), doc, version) =
          (Reach-IsFaithful r v).consistent.projected id d h in
        (
          now,
          ap y.state.rows (sym same) ∙ at,
          omega (arith, version, b.not_ahead),
          λ e. doc ∙ ap doc_of (b.up_to_date (sym version ∙ e)),
        ),
    λ id d h. Reach-HoldsFrom r id d.version (d, h, omega arith),
  )
