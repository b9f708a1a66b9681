-- ===== src/Post/Drained.antt =====
-- The loop of `CleanupDeletedPosts` (services/post/service/post.go) when the database and the object
-- store answer.
use social_ai_backend.Common.{
  ℕ, zero, suc, ◌+◌, ◌≤◌, ◌≡◌, refl, sym, ap, subst, inl, inr, Bool, true, false, not, Option, none,
  some, List, arith, if◌then◌else◌, Bool-cases, Option-cases, In, In-keep_inv, Text, text_eq,
  text_eq_refl, text_eq→eq, ok, err,
}
use social_ai_backend.Transaction.{Weather, in_tx_done}
use social_ai_backend.Post.Tables.{PostRow, has_post_id, update_post, next_cleanup}
use social_ai_backend.Post.Counts.{Error, db_error}
use social_ai_backend.Post.Create.{State, Clients, Result, delete_media, without}
use social_ai_backend.Post.Cleanup.{
  clean_completed, cleaned, clean_tx, clean_media, clean_round, clean_rounds, cleanup_deleted_posts,
}
use social_ai_backend.Post.Invariant.{IsValid, update_post-IsValid}
use social_ai_backend.Post.Cleaning.{
  waits, waiting_in, next_cleanup-none, next_cleanup-some, one_fewer, In-update, waiting-In,
}

delete_media_lem :
    (cs : Clients) (id : Text) (media : List Text)
    → cs.delete_fails ≡ false
    → delete_media cs id media ≡ (without id media, true)
unfolding delete_media
delete_media_lem cs id media e =
    subst
      (λ b.
        if◌then◌else◌ {A = List Text × Bool} b
          (if cs.failed_took_effect then without id media else media, not b)
          (without id media, not b)
        ≡ (without id media, true))
      (sym e) refl

module _ (w : Weather) (cs : Clients) (reason : Text) (st : State)
    (calm : (k : ℕ) → w.fails k ≡ false) (answers : cs.delete_fails ≡ false) where
  round_none : next_cleanup st.db.posts ≡ none → clean_round w cs reason st ≡ (st, ok false)
  unfolding clean_round clean_media clean_tx
  round_none e =
      rw
        (
          clean_round,
          e,
          clean_tx,
          calm 2,
          in_tx_done db_error w st.db st.db false calm,
          clean_media,
        )
        refl

  media_some :
      (row : PostRow) → clean_media w cs (some row) st.media ≡ (without row.post_id st.media, true)
  unfolding clean_media
  media_some row = rw (calm 1, calm 2) (delete_media_lem cs row.post_id st.media answers)

  tx_some :
      (row : PostRow)
      → clean_tx w true reason (some row) st.db ≡ ok (cleaned true reason row st.db, true)
  unfolding clean_tx
  tx_some row = rw (calm 2, calm 3) refl

  round_some :
      (row : PostRow)
      → next_cleanup st.db.posts ≡ some row
      → clean_round w cs reason st ≡ (
        record { db = cleaned true reason row st.db; media = without row.post_id st.media },
        ok true,
      )
  unfolding clean_round
  round_some row e =
      rw
        (
          clean_round,
          e,
          media_some row,
          tx_some row,
          in_tx_done db_error w st.db (cleaned true reason row st.db) true calm,
        )
        refl

module _ (w : ℕ → Weather) (cs : ℕ → Clients) (reason : ℕ → Text)
    (calm : (n k : ℕ) → (w n).fails k ≡ false)
    (answers : (n : ℕ) → (cs n).delete_fails ≡ false) where
  -- What the rounds do from some state on.
  record Drained (done : ℕ) (st : State) (r : State × ℕ × Option Error) : Type 0 where
    none_waits : waiting_in r.0.db.posts ≡ 0
    counted : r.1 ≡ done + waiting_in st.db.posts
    no_error : r.2 ≡ none
    fewer_media : (name : Text) → In name r.0.media → In name st.media
    removed : (row : PostRow) → In row st.db.posts → waits row ≡ true → ¬ In row.post_id r.0.media

  idle : (done : ℕ) (st : State) → waiting_in st.db.posts ≡ 0 → Drained done st (st, done, none)
  idle done st e = record {
    none_waits = e;
    counted = omega (arith, e);
    no_error = refl;
    fewer_media = λ name m. m;
    removed = λ row m k. absurd (omega (arith, e, waiting-In st.db.posts m k));
  }

  gone : (id : Text) (media : List Text) → In id (without id media) → ⊥
  gone id media m =
      let k : not (text_eq id id) ≡ true =
        (In-keep_inv (λ name. not (text_eq id name)) media m).1 in
      absurd (ground (arith, k, text_eq_refl id))

  step :
      (done : ℕ) (st : State) (row : PostRow) (r : State × ℕ × Option Error)
      → IsValid st.db
      → next_cleanup st.db.posts ≡ some row
      → Drained
          (done + 1)
          (record {
            db = record st.db { posts = update_post row.post_id clean_completed st.db.posts };
            media = without row.post_id st.media;
          })
          r
      → Drained done st r
  step done st row r v e d =
      let found = next_cleanup-some st.db.posts row e in
      record {
        none_waits = d.none_waits;
        counted =
            omega
              (arith, d.counted, one_fewer row st.db.posts found.0 found.1 (v.unique row.post_id));
        no_error = d.no_error;
        fewer_media = λ name m.
            (In-keep_inv (λ x. not (text_eq row.post_id x)) st.media (d.fewer_media name m)).0;
        removed = λ other m k. elim (Bool-cases (has_post_id row.post_id other)) [
          | inl h ↦ λ x. gone row.post_id st.media (
              subst (λ t. In t (without row.post_id st.media))
                (sym (text_eq→eq row.post_id other.post_id h)) (d.fewer_media other.post_id x))
          | inr h ↦ d.removed other (In-update row.post_id st.db.posts m h) k
        ];
      }

  -- The loop after a round.
  abbrev continued : ℕ → ℕ → State × Result Bool → State × ℕ × Option Error
  continued left done after = elim after.1 [
    | err e ↦ (after.0, done, some e)
    | ok claimed ↦ elim claimed [
      | false ↦ (after.0, done, none)
      | true ↦ clean_rounds w cs reason left (done + 1) after.0
    ]
  ]

  rounds_after :
      (left done : ℕ) (st : State) (after : State × Result Bool)
      → clean_round (w left) (cs left) (reason left) st ≡ after
      → clean_rounds w cs reason (suc left) done st ≡ continued left done after
  unfolding clean_rounds
  rounds_after left done st after e = ap (continued left done) e

  rounds-Drained :
      (left done : ℕ) (st : State)
      → IsValid st.db
      → waiting_in st.db.posts ≤ left
      → Drained done st (clean_rounds w cs reason left done st)
  unfolding clean_rounds
  rounds-Drained zero done st v h = idle done st (omega arith)
  rounds-Drained (suc left) done st v h = elim (Option-cases (next_cleanup st.db.posts)) [
    | inl e ↦
        rw
          (rounds_after left done st _
            (round_none (w left) (cs left) (reason left) st (calm left) (answers left) e))
          (idle done st (next_cleanup-none st.db.posts e))
    | inr (row, e) ↦
        let found = next_cleanup-some st.db.posts row e in
        rw
          (rounds_after left done st _
            (round_some (w left) (cs left) (reason left) st (calm left) (answers left) row e))
          (step done st row _ v e (
            rounds-Drained left (done + 1) _
              (update_post-IsValid row.post_id clean_completed st.db (λ p. refl) (λ p. refl) v)
              (omega (arith, one_fewer row st.db.posts found.0 found.1 (v.unique row.post_id)))))
  ]

  -- On valid tables, with a database and an object store that answer, and a limit that is at least the
  -- number of posts that wait for the removal of their media: `CleanupDeletedPosts` returns this number
  -- and no error, no post waits any more, and the media of every post that waited are gone.
  pub cleanup_drains :
      (limit : ℕ) (st : State)
      → IsValid st.db
      → waiting_in st.db.posts ≤ limit
      → (waiting_in (cleanup_deleted_posts w cs reason limit st).0.db.posts ≡ 0)
        × ((cleanup_deleted_posts w cs reason limit st).1 ≡ waiting_in st.db.posts)
        × ((cleanup_deleted_posts w cs reason limit st).2 ≡ none)
        × ((row : PostRow)
            → In row st.db.posts
            → waits row ≡ true
            → ¬ In row.post_id (cleanup_deleted_posts w cs reason limit st).0.media)
  unfolding cleanup_deleted_posts
  cleanup_drains limit st v h =
      let d = rounds-Drained limit 0 st v h in
      (d.none_waits, omega (arith, d.counted), d.no_error, d.removed)
