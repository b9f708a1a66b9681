-- ===== src/Indexer/Steps.antt =====
-- Many indexers at work on one index (services/indexer/worker/indexer.go), call by call, while posts are
-- created and deleted.
use social_ai_backend.Common.{
  ◌≤◌, ◌<◌, ◌≡◌, refl, ◌∙◌, true, false, Option, none, some, List, ◌∷◌, arith, All, In, Text,
}
use social_ai_backend.Indexer.{
  PostRow, Stored, State, set_at, has_no_embedding, store_embedding, doc_of, indexed,
}

module _ (V : Type 0) where
  -- The index and the table, with the rows that indexers have in hand.
  pub record System : Type 0 where
    pub state : State V
    pub in_hand : List (PostRow V)

module _ {V : Type 0} where
  -- A row as it was read at some time, against the row as it is now.
  pub record Behind (old now : PostRow V) : Type 0 where
    pub same_id : old.id ≡ now.id
    pub same_author : old.user_id ≡ now.user_id
    pub same_message : old.message ≡ now.message
    pub same_type : old.type ≡ now.type
    pub same_time : old.created_at ≡ now.created_at
    pub not_ahead : old.version ≤ now.version
    pub up_to_date : old.version ≡ now.version → old ≡ now

  pub Behind-refl : (r : PostRow V) → Behind r r
  Behind-refl r = record {
    same_id = refl;
    same_author = refl;
    same_message = refl;
    same_type = refl;
    same_time = refl;
    not_ahead = omega arith;
    up_to_date = λ _. refl;
  }

  -- What a change of a post's row leaves as it is; the version counts the changes.
  pub record Changes (old now : PostRow V) : Type 0 where
    pub same_id : old.id ≡ now.id
    pub same_author : old.user_id ≡ now.user_id
    pub same_message : old.message ≡ now.message
    pub same_type : old.type ≡ now.type
    pub same_time : old.created_at ≡ now.created_at
    pub newer : old.version < now.version

  pub Behind-Changes : {r old now : PostRow V} → Behind r old → Changes old now → Behind r now
  Behind-Changes b c = record {
    same_id = b.same_id ∙ c.same_id;
    same_author = b.same_author ∙ c.same_author;
    same_message = b.same_message ∙ c.same_message;
    same_type = b.same_type ∙ c.same_type;
    same_time = b.same_time ∙ c.same_time;
    not_ahead = omega (arith, b.not_ahead, c.newer);
    up_to_date = λ e. absurd (omega (arith, b.not_ahead, c.newer, e));
  }

  -- The row was read from the table, now or earlier.
  abbrev pub WasRead : (Text → Option (PostRow V)) → PostRow V → Type 0
  WasRead rows r = (now : PostRow V) × (rows r.id ≡ some now) × Behind r now

  -- Each row stands at its id, and each document is the projection of its post's row at its version.
  pub record IsConsistent (s : State V) : Type 0 where
    pub keyed : (id : Text) (r : PostRow V) → s.rows id ≡ some r → r.id ≡ id
    pub projected :
        (id : Text) (d : Stored V)
        → s.docs id ≡ some d
        → (r : PostRow V) × (r.id ≡ id)
          × WasRead s.rows r
          × (d.doc ≡ doc_of r)
          × (d.version ≡ r.version)

  abbrev pub with_rows : System V → (Text → Option (PostRow V)) → System V
  with_rows x rows = record x { state = record x.state { rows = rows } }

  -- One call of one indexer, or a transaction of the post service. An indexer that gets no answer, or that
  -- crashes, drops the row; an event that is delivered again is read again.
  pub data Step (x : System V) : System V → Type 0 where
    loads :
        (id : Text) (r : PostRow V)
        → x.state.rows id ≡ some r
        → Step x (record x { in_hand = r ∷ x.in_hand })
    embeds :
        (r now : PostRow V) (emb : V) (s' : State V)
        → In r x.in_hand
        → r.deleted ≡ false
        → has_no_embedding r ≡ true
        → store_embedding r.id emb x.state ≡ some (s', now)
        → Step x (record x {
          state = s';
          in_hand = record r { embedding = some emb; version = now.version } ∷ x.in_hand;
        })
    writes : (r : PostRow V) → In r x.in_hand → Step x (record x { state = indexed r x.state })
    drops :
        (rest : List (PostRow V))
        → ((r : PostRow V) → In r rest → In r x.in_hand)
        → Step x (record x { in_hand = rest })
    creates :
        (r : PostRow V)
        → x.state.rows r.id ≡ none
        → Step x (with_rows x (set_at r.id r x.state.rows))
    changes :
        (id : Text) (old now : PostRow V)
        → x.state.rows id ≡ some old
        → Changes old now
        → Step x (with_rows x (set_at id now x.state.rows))

  pub data Reach (x : System V) : System V → Type 0 where
    here : Reach x x
    next : {y z : System V} → Reach x y → Step y z → Reach x z

  -- Nothing that an indexer holds was made up.
  pub record IsFaithful (x : System V) : Type 0 where
    pub consistent : IsConsistent x.state
    pub all_read : All (WasRead x.state.rows) x.in_hand
