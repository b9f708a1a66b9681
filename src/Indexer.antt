-- ===== src/Indexer.antt =====
-- services/indexer/worker/indexer.go: the search projection of the posts, with `IndexVersioned` of
-- shared/backend/elasticsearch.go. An embedding is a value of a parameter. The posts table and the index are
-- functions of a post's id, and the table has a list of its ids in their order.
pub mod Steps
pub mod Consistent
pub mod Convergence
pub mod Current
pub mod SyncAll
pub mod Rebuild
pub mod Source
use social_ai_backend.Common.{
  ℕ, zero, suc, ◌+◌, Bool, true, false, not, ◌&&◌, Option, none, some, List, [], ◌∷◌, ltb,
  if◌then◌else◌, keep, length, take, Text, text_eq, text_lt, is_empty, Attempt, ok, err, ◌>>=◌,
  ◌>>◌, refuse, found_or,
}

-- `no_rows` is pgx.ErrNoRows; the others stand for any error of the database and of Elasticsearch.
pub data Error : Type 0 where
  bad_event no_rows db_error es_error : Error

abbrev pub Result {ℓ} : Type ℓ → Type ℓ
Result A = Attempt Error A

abbrev pub set_at {ℓ} : {A : Type ℓ} → Text → A → (Text → Option A) → Text → Option A
set_at id a f j = if text_eq id j then some a else f j

-- SELECT post_id FROM posts WHERE post_id > $1 ORDER BY post_id LIMIT $2
abbrev pub next_ids : Text → ℕ → List Text → List Text
next_ids after page_size ids = take page_size (keep (text_lt after) ids)

abbrev pub last_of : Text → List Text → Text
last_of after [] = after
last_of after (id ∷ ids) = last_of id ids

module _ (V : Type 0) where
  -- `postRow`.
  pub record PostRow : Type 0 where
    pub id : Text
    pub user_id : Text
    pub message : Text
    pub type : Text
    pub created_at : ℕ
    pub deleted : Bool
    pub embedding : Option V
    pub version : ℕ

  -- `backend.PostSearchDoc`.
  pub record PostSearchDoc : Type 0 where
    pub post_id : Text
    pub user_id : Text
    pub message : Text
    pub type : Text
    pub created_at : ℕ
    pub deleted : Bool
    pub embedding : Option V

  -- A document in the index, with its external version.
  pub record Stored : Type 0 where
    pub doc : PostSearchDoc
    pub version : ℕ

  pub record State : Type 0 where
    pub ids : List Text
    pub rows : Text → Option PostRow
    pub docs : Text → Option Stored

  -- What the calls of one Sync meet: the n-th call of the database fails, and may then have had its effect;
  -- `embedding_of` is OpenAI, if there is one, and its `none` an error; so for Elasticsearch.
  pub record World : Type 0 where
    pub fails : ℕ → Bool
    pub lost : Bool
    pub embedding_of : Option (Text → Option V)
    pub es_fails : Bool
    pub es_lost : Bool

  -- The state, the number of posts that were synced, and an error.
  abbrev pub Progress : Type 0
  Progress = State × ℕ × Result (Unit {0})

module _ {V : Type 0} where
  abbrev pub db_call : World V → ℕ → Result (Unit {0})
  db_call w n = refuse (w.fails n) db_error

  unfoldable pub load : World V → ℕ → Text → State V → Result (PostRow V)
  load w n id s = do db_call w n; found_or no_rows (s.rows id)

  abbrev pub with_embedding : V → PostRow V → PostRow V
  with_embedding emb row = record row { embedding = some emb; version = row.version + 1 }

  abbrev pub has_no_embedding : PostRow V → Bool
  has_no_embedding row = elim row.embedding [ none ↦ true | some _ ↦ false ]

  -- UPDATE posts SET embedding ... WHERE ... RETURNING version, with the changed row; `none` if no row
  -- matches.
  unfoldable pub store_embedding : Text → V → State V → Option (State V × PostRow V)
  store_embedding id emb s = elim (s.rows id) [
    | none ↦ none
    | some row ↦
        if has_no_embedding row && not row.deleted
        then some
            (record s { rows = set_at id (with_embedding emb row) s.rows }, with_embedding emb row)
        else none
  ]

  -- The embedding that OpenAI gave is stored, and the row that Sync read gets it with the new version.
  unfoldable pub embed_stored : World V → PostRow V → V → State V → State V × Result (PostRow V)
  unfolding store_embedding load
  embed_stored w row emb s = elim (store_embedding row.id emb s) [
    | none ↦ (s, if w.fails 1 then err db_error else load w 2 row.id s)
    | some (s', now) ↦
        if w.fails 1
        then (if w.lost then s' else s, err db_error)
        else (s', ok (record row { embedding = some emb; version = now.version }))
  ]

  unfoldable pub embed :
      World V → (Text → Option V) → PostRow V → State V → State V × Result (PostRow V)
  unfolding embed_stored
  embed w embedding_of row s = elim (embedding_of row.message) [
    | none ↦ (s, ok row)
    | some emb ↦ embed_stored w row emb s
  ]

  -- The condition before the call of `embed`.
  unfoldable pub enriched : World V → PostRow V → State V → State V × Result (PostRow V)
  unfolding embed
  enriched w row s = elim w.embedding_of [
    | none ↦ (s, ok row)
    | some embedding_of ↦
        if not row.deleted && (has_no_embedding row && not (is_empty row.message))
        then embed w embedding_of row s
        else (s, ok row)
  ]

  -- A tombstone keeps nothing searchable.
  unfoldable pub doc_of : PostRow V → PostSearchDoc V
  doc_of row = record {
    post_id = row.id;
    user_id = row.user_id;
    message = if row.deleted then [] else row.message;
    type = row.type;
    created_at = row.created_at;
    deleted = row.deleted;
    embedding = if row.deleted then none else row.embedding;
  }

  -- version_type=external: a document is replaced only by one of a higher version.
  unfoldable pub index_versioned :
      Text → PostSearchDoc V → ℕ → (Text → Option (Stored V)) → Text → Option (Stored V)
  index_versioned id doc version docs = elim (docs id) [
    | none ↦ set_at id (record { doc = doc; version = version }) docs
    | some old ↦
        if ltb old.version version
        then set_at id (record { doc = doc; version = version }) docs
        else docs
  ]

  unfoldable pub indexed : PostRow V → State V → State V
  unfolding index_versioned doc_of
  indexed row s = record s { docs = index_versioned row.id (doc_of row) row.version s.docs }

  -- The end of Sync: the document of the row goes to the index.
  unfoldable pub write_doc : World V → State V × Result (PostRow V) → State V × Result (Unit {0})
  unfolding indexed
  write_doc w (s, err e) = (s, err e)
  write_doc w (s, ok row) =
      if w.es_fails
      then (if w.es_lost then indexed row s else s, err es_error)
      else (indexed row s, ok tt)

  -- `Sync`; a row that is not there is only logged.
  unfoldable pub sync : World V → Text → State V → State V × Result (Unit {0})
  unfolding load enriched write_doc
  sync w id s = elim (load w 0 id s) [
    | ok row ↦ write_doc w (enriched w row s)
    | err no_rows ↦ (s, ok tt)
    | err e ↦ (s, err e)
  ]

  -- `Handle`, for the id that the event was read as.
  unfoldable pub handle : World V → Option Text → State V → State V × Result (Unit {0})
  handle w none s = (s, err bad_event)
  handle w (some id) s = if is_empty id then (s, err bad_event) else sync w id s

  abbrev pub one_more : Progress V → Progress V
  one_more (s, n, r) = (s, n + 1, r)

  -- What follows the Sync of one post.
  abbrev pub synced : State V × Result (Unit {0}) → (State V → Progress V) → Progress V
  synced (s, err e) rest = (s, 0, err e)
  synced (s, ok _) rest = one_more (rest s)

  -- Syncs of some posts, each in a world of its own, until one fails, with the number of those that
  -- succeeded.
  unfoldable pub sync_all : (Text → World V) → List Text → State V → Progress V
  unfolding sync
  sync_all worlds [] s = (s, 0, ok tt)
  sync_all worlds (id ∷ ids) s = synced (sync (worlds id) id s) (λ s'. sync_all worlds ids s')

  -- What follows a page: an error, the end, or the next page.
  abbrev pub paged :
      ℕ → Bool → (ℕ → State V → Option (Progress V)) → Progress V → Option (Progress V)
  paged done is_last next (s, n, err e) = some (s, done + n, err e)
  paged done true next (s, n, ok _) = some (s, done + n, ok tt)
  paged done false next (s, n, ok _) = next (done + n) s

  -- `Reindex`, with fuel for its pages; `done` counts the posts before this page. The query of this page
  -- fails if `page_fails done`; `none` means that the fuel ran out.
  unfoldable pub reindex_from :
      (ℕ → Bool) → (Text → World V) → ℕ → ℕ → Text → ℕ → State V → Option (Progress V)
  unfolding sync_all
  reindex_from page_fails worlds page_size zero after done s = none
  reindex_from page_fails worlds page_size (suc fuel) after done s =
      let page : List Text = next_ids after page_size s.ids in
      elim (page_fails done) [
        | true ↦ some (s, done, err db_error)
        | false ↦
            paged done (ltb (length page) page_size)
              (reindex_from page_fails worlds page_size fuel (last_of after page))
              (sync_all worlds page s)
      ]

  unfoldable pub reindex : (ℕ → Bool) → (Text → World V) → ℕ → ℕ → State V → Option (Progress V)
  unfolding reindex_from
  reindex page_fails worlds page_size fuel s = reindex_from page_fails worlds page_size fuel [] 0 s

  abbrev pub attempted : ℕ → Progress V → State V × Result ℕ
  attempted n (s, _, err e) = (s, err e)
  attempted n (s, _, ok _) = (s, ok n)

  -- `RepairMissingEmbeddings` for the ids that its query gave, `none` if it failed; the number of ids.
  unfoldable pub repair :
      Option (Text → Option V)
      → (Text → World V)
      → Option (List Text)
      → State V
      → State V × Result ℕ
  unfolding sync_all
  repair none worlds ids s = (s, ok 0)
  repair (some _) worlds none s = (s, err db_error)
  repair (some _) worlds (some ids) s = attempted (length ids) (sync_all worlds ids s)
