-- ===== src/Post/Saving.antt =====
-- The outcomes of `SavePost` (services/post/service/post.go).
use social_ai_backend.Common.{
  ℕ, ◌≡◌, refl, sym, ap, subst, ◌⊎◌, inl, inr, Bool, true, false, not, List, [], ◌∷◌, ◌++◌, arith,
  Bool-cases, any, In, here, there, In-keep_inv, Text, text_eq, text_eq_refl, ok, err,
  if◌then◌else◌,
}
use social_ai_backend.Transaction.{Weather, in_tx, in_tx_ok, in_tx_err}
use social_ai_backend.Outbox.Table.{Record}
use social_ai_backend.Outbox.Relay.{Settings, World}
use social_ai_backend.Post.Tables.{Db, Payload, created, has_post_id, insert_post}
use social_ai_backend.Post.Counts.{Error, gcs_error, db_error}
use social_ai_backend.Post.Create.{
  Result, NewPost, State, Clients, row_of, created_event, created_topic, record_event, persist_tx,
  persisted, persist_new_post, save_post, delete_media, without, publish_after_commit,
}

-- What a successful transaction leaves: one post and one event more.
abbrev Stored : ℕ → NewPost → Db → Db × Record Payload → Type 0
Stored now p db r =
    r
    ≡ record_event p.post_id created_topic p.user_id (created (created_event p now)) now
        (record db { posts = db.posts ++ row_of p now ∷ [] })

-- Why a transaction of `persistNewPost` does not take place: one of its calls (begin, the two inserts,
-- commit) returned an error, or the id is in use.
abbrev pub Refusal : Weather → NewPost → Db → Type 0
Refusal w p db =
    ((n : ℕ) × In n (1 ∷ 2 ∷ 3 ∷ 9 ∷ []) × (w.fails n ≡ true))
    ⊎ (any (has_post_id p.post_id) db.posts ≡ true)

-- What its body returns: what is to be stored, or an error with a reason.
abbrev pub Ran : Weather → ℕ → NewPost → Db → Result (Db × Record Payload) → Type 0
Ran w now p db (ok r) = Stored now p db r
Ran w now p db (err e) = Refusal w p db

persist_tx-Ran :
    (w : Weather) (now : ℕ) (p : NewPost) (db : Db) → Ran w now p db (persist_tx w now p db)
unfolding persist_tx insert_post
persist_tx-Ran w now p db = elim (Bool-cases (w.fails 2)) [
  | inl e ↦ rw e (inl (2, there here, e))
  | inr e ↦ elim (Bool-cases (any (has_post_id p.post_id) db.posts)) [
    | inl f ↦ rw (e, f) (inr f)
    | inr f ↦ elim (Bool-cases (w.fails 3)) [
      | inl g ↦ rw (e, f, g) (inl (3, there (there here), g))
      | inr g ↦ rw (e, f, g) refl
    ]
  ]
]

gone : (id : Text) (media : List Text) → In id (without id media) → ⊥
gone id media m =
    let k : not (text_eq id id) ≡ true = (In-keep_inv (λ name. not (text_eq id name)) media m).1 in
    absurd (ground (arith, k, text_eq_refl id))

delete_media_gone :
    (cs : Clients) (id : Text) (media : List Text)
    → cs.delete_fails ≡ false
    → ¬ In id (delete_media cs id media).0
unfolding delete_media
delete_media_gone cs id media e =
    subst
      (λ b.
        ¬ In id
          (if◌then◌else◌ {A = List Text × Bool} b
            (if cs.failed_took_effect then without id media else media, not b)
            (without id media, not b)).0)
      (sym e) (gone id media)

-- The commit took effect, and its caller got an error.
abbrev pub LostCommit : Weather → Type 0
LostCommit w = (w.fails 9 ≡ true) × (w.commit_lost ≡ true)

module _ (w : Weather) (now : ℕ) where
  -- What `SavePost` did, for a post with its link.
  pub data SaveOutcome (p : NewPost) (st st' : State) (r : Result (Unit {0})) : Type 0 where
    stored :
        r ≡ ok tt
        → st'.db.posts ≡ st.db.posts ++ row_of p now ∷ []
        → st'.media ≡ p.post_id ∷ st.media
        → SaveOutcome p st st' r
    refused :
        (e : Error)
        → r ≡ err e
        → Refusal w p st.db
        → st'.db ≡ st.db
        → ¬ In p.post_id st'.media
        → SaveOutcome p st st' r
    dangling :
        r ≡ err db_error
        → LostCommit w
        → st'.db.posts ≡ st.db.posts ++ row_of p now ∷ []
        → ¬ In p.post_id st'.media
        → SaveOutcome p st st' r

module _ (s : Settings) (w : Weather) (net : World) (cs : Clients) (now : ℕ)
    (compensates : cs.delete_fails ≡ false) where
  persisted_cases :
      (p : NewPost) (st : State) (rec : Db × Record Payload)
      → Stored now p st.db rec
      → SaveOutcome w now p st
          (persisted s w net cs p (p.post_id ∷ st.media) (in_tx db_error w st.db (ok rec))).0
          (persisted s w net cs p (p.post_id ∷ st.media) (in_tx db_error w st.db (ok rec))).1
  unfolding persisted publish_after_commit record_event
  persisted_cases p st (db', rec) h =
      let no_media = delete_media_gone cs p.post_id (p.post_id ∷ st.media) compensates in
      elim (in_tx_ok db_error w st.db db' rec) [
        | inl (inl f, e) ↦ rw e (refused db_error refl (inl (1, here, f)) refl no_media)
        | inl (inr f, e) ↦
            rw e (refused db_error refl (inl (9, there (there (there here)), f)) refl no_media)
        | inr (inl (f, l, e)) ↦ rw e (dangling refl (f, l) (ap (λ r. r.0.posts) h) no_media)
        | inr (inr e) ↦ rw e (stored refl (ap (λ r. r.0.posts) h) refl)
      ]

  persist_cases :
      (p : NewPost) (st : State) (m : Result (Db × Record Payload))
      → Ran w now p st.db m
      → SaveOutcome w now p st
          (persisted s w net cs p (p.post_id ∷ st.media) (in_tx db_error w st.db m)).0
          (persisted s w net cs p (p.post_id ∷ st.media) (in_tx db_error w st.db m)).1
  unfolding persisted
  persist_cases p st (ok rec) h = persisted_cases p st rec h
  persist_cases p st (err e) h =
      let (e', f) = in_tx_err db_error {A = Record Payload} w st.db e in
      rw f
        (refused e' refl h refl (delete_media_gone cs p.post_id (p.post_id ∷ st.media) compensates))

  -- When the upload succeeds, and so does a removal of the object, `SavePost` either stores the post
  -- and its object and returns nil; or a call of its transaction returned an error or the id is in use, and it
  -- returns an error, leaves the tables as they were and leaves no object of the post; or the commit
  -- returned an error although it took effect, and `SavePost` returns an error of the database although the
  -- post is stored, and the compensation has removed the object of this stored post.
  pub save_post_outcome :
      (p : NewPost) (st : State)
      → cs.save_fails ≡ false
      → SaveOutcome w now
          (record p { url = cs.link p.post_id })
          st
          (save_post s w net cs now p st).0
          (save_post s w net cs now p st).1
  unfolding save_post persist_new_post
  save_post_outcome p st e =
      let linked = record p { url = cs.link p.post_id } in
      subst
        (λ b.
          let r =
            if◌then◌else◌ {A = State × Result (Unit {0})} b
              (
                record st {
                  media = if cs.failed_took_effect then p.post_id ∷ st.media else st.media;
                },
                err gcs_error,
              )
              (persist_new_post s w net cs now linked
                (record st { media = p.post_id ∷ st.media })) in
          SaveOutcome w now linked st r.0 r.1)
        (sym e)
        (persist_cases linked st (persist_tx w now linked st.db)
          (persist_tx-Ran w now linked st.db))
