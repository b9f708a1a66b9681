-- ===== src/Post/Repairs.antt =====
-- The loop of the reconciler (services/post/service/reconcile.go) while nothing else changes the counts.
use social_ai_backend.Common.{
  ℕ, ◌+◌, ◌≡◌, refl, sym, subst, ◌⊎◌, inl, inr, false, ◌&&◌, Option, none, List, [], ◌∷◌, if_both,
  Bool-cases, any, map, All, All-of_In, In, In-cons, Aligned, Aligned-weaken, Aligned-refl, Text,
}
use social_ai_backend.Common.Int.{ℤ, pos, eqb_ℤ, or_default}
use social_ai_backend.Transaction.{Weather}
use social_ai_backend.Post.Tables.{Db, PostRow, like_field, shared_field}
use social_ai_backend.Post.Counts.{Error}
use social_ai_backend.Post.Reconcile.{
  Check, check_of, next_batch, matches, repair, Reading, is_pending_delta, Walk, has_pending_delta,
  update_counts, reconcile, reconcile_all, reconcile_once, next_position,
}
use social_ai_backend.Post.Reconciled.{
  IsRepaired, Kept, repair-Kept, repair-IsRepaired, check_of-Sound, own_repair, balanced,
}

-- A change of the right list of two related ones.
change_right :
    (R Q : PostRow → PostRow → Type 0) (f : PostRow → PostRow)
    → ((p q : PostRow) → R p q → Q p (f q))
    → (ps qs : List PostRow) → Aligned R ps qs
    → Aligned Q ps (map f qs)
change_right R Q f h [] [] k = tt
change_right R Q f h [] (q ∷ qs) k = absurd k
change_right R Q f h (p ∷ ps) [] k = absurd k
change_right R Q f h (p ∷ ps) (q ∷ qs) k = (h p q k.0, change_right R Q f h ps qs k.1)

module _ (db : Db) (w : Weather) (pending : Text → Text → Reading) (now quiet : ℕ)
    (calm : (n : ℕ) → w.fails n ≡ false)
    (flushed : (id field : Text) → is_pending_delta (pending id field) ≡ false) where
  -- No other writer.
  abbrev alone : ℕ → List PostRow → List PostRow
  alone n ps = ps

  -- The rows of a set are repaired.
  record Covers (D : PostRow → Type 0) (p q : PostRow) : Type 0 where
    kept : Kept db p q
    repaired : D p → IsRepaired db q

  abbrev Or : (PostRow → Type 0) → PostRow → PostRow → Type 0
  Or D r p = D p ⊎ (r ≡ p)

  covered_balanced :
      (D : PostRow → Type 0) (r : PostRow)
      → ((q : PostRow) → Kept db r q → IsRepaired db q)
      → (p q : PostRow) → Covers D p q
      → Covers (Or D r) p q
  covered_balanced D r fine p q h = record {
    kept = h.kept;
    repaired = λ d. elim d [
      | inl old ↦ h.repaired old
      | inr same ↦ fine q (subst (λ x. Kept db x q) (sym same) h.kept)
    ];
  }

  covered_repair :
      (D : PostRow → Type 0) (r p q : PostRow)
      → Covers D p q
      → Covers (Or D r) p (repair (check_of now quiet db r) q)
  covered_repair D r p q h = record {
    kept = repair-Kept db (check_of now quiet db r) p q (check_of-Sound db now quiet r) h.kept;
    repaired = λ d. elim d [
      | inl old ↦
          repair-IsRepaired db (check_of now quiet db r) q (check_of-Sound db now quiet r)
            (h.repaired old)
      | inr same ↦ own_repair db now quiet r q (subst (λ x. Kept db x q) (sym same) h.kept)
    ];
  }

  -- What a round leaves.
  abbrev After : (PostRow → Type 0) → Walk × Option Error → Type 0
  After D x = Aligned (Covers D) db.posts x.0.posts × (x.1 ≡ none)

  update_After :
      (D : PostRow → Type 0) (r : PostRow) (n : ℕ) (x : Walk)
      → Aligned (Covers D) db.posts x.posts
      → After (Or D r) (update_counts w pending alone n (check_of now quiet db r) x)
  unfolding update_counts
  update_After D r n x h =
      let changed =
        change_right (Covers D) (Covers (Or D r)) _ (covered_repair D r) db.posts x.posts h in
      rw (update_counts, calm n)
        (if_both (After (Or D r)) (any (matches (check_of now quiet db r)) x.posts) _ _
          (changed, refl) (changed, refl))

  reconcile-After :
      (D : PostRow → Type 0) (r : PostRow) (n : ℕ) (x : Walk)
      → (check_of now quiet db r).busy ≡ false
      → Aligned (Covers D) db.posts x.posts
      → After (Or D r) (reconcile w pending alone n (check_of now quiet db r) x)
  unfolding reconcile
  reconcile-After D r n x idle h =
      let c = check_of now quiet db r in
      elim (Bool-cases (eqb_ℤ c.likes (pos c.n_like) && eqb_ℤ c.shares (pos c.n_shr))) [
        | inl e ↦
            rw (reconcile, e)
              (
                Aligned-weaken (Covers D) (Covers (Or D r)) db.posts x.posts
                    (λ p q m.
                      covered_balanced D r (λ q'. balanced db now quiet r q' (unfold check_of in e))
                        p q)
                    h,
                refl,
              )
        | inr e ↦
            rw
              (
                reconcile,
                e,
                idle,
                has_pending_delta,
                flushed c.id like_field,
                flushed c.id shared_field,
              )
              (update_After D r n (record x { checked = x.checked + 1 }) h)
      ]

  reconcile_all_next :
      (n : ℕ) (c : Check) (cs : List Check) (x : Walk)
      → (reconcile w pending alone n c x).1 ≡ none
      → reconcile_all w pending alone n (c ∷ cs) x
        ≡ reconcile_all w pending alone (n + 1) cs (reconcile w pending alone n c x).0
  unfolding reconcile_all
  reconcile_all_next n c cs x e = rw (reconcile_all, e) refl

  reconcile_all-After :
      (D : PostRow → Type 0) (rows : List PostRow) (n : ℕ) (x : Walk)
      → All (λ r. (check_of now quiet db r).busy ≡ false) rows
      → Aligned (Covers D) db.posts x.posts
      → After
          (λ p. D p ⊎ In p rows)
          (reconcile_all w pending alone n (map (check_of now quiet db) rows) x)
  unfolding reconcile_all
  reconcile_all-After D [] n x idle h = (
    Aligned-weaken (Covers D) (Covers (λ p. D p ⊎ In p [])) db.posts x.posts
        (λ p q m c. record {
          kept = c.kept;
          repaired = λ d. elim d [ inl old ↦ c.repaired old | inr none_left ↦ elim none_left [ ] ];
        })
        h,
    refl,
  )
  reconcile_all-After D (r ∷ rows) n x idle h =
      let round = reconcile-After D r n x idle.0 h in
      let rest =
        reconcile_all-After (Or D r) rows (n + 1)
          (reconcile w pending alone n (check_of now quiet db r) x).0 idle.1 round.0 in
      rw
        (reconcile_all_next n (check_of now quiet db r) (map (check_of now quiet db) rows) x
          round.1)
        (
          Aligned-weaken (Covers (λ p. Or D r p ⊎ In p rows)) (Covers (λ p. D p ⊎ In p (r ∷ rows)))
              db.posts _
              (λ p q m c. record {
                kept = c.kept;
                repaired = λ d. elim d [
                  | inl old ↦ c.repaired (inl (inl old))
                  | inr in_rows ↦ elim (In-cons in_rows) [
                    | inl same ↦ c.repaired (inl (inr same))
                    | inr later ↦ c.repaired (inr later)
                  ]
                ];
              })
              rest.0,
          rest.1,
        )

-- When the database answers and nothing else changes the counts meanwhile, no delta waits in Redis, and
-- no post of the batch has had a like or a share lately: a pass of the reconciler ends without an
-- error, keeps every post, and the counts of each post of the batch are then the numbers of its likes
-- and of its shares.
pub reconcile_repairs :
    (w : Weather) (pending : Text → Text → Reading) (batch quiet : ℤ) (now : ℕ) (after : Text)
    (db : Db)
    → ((n : ℕ) → w.fails n ≡ false)
    → ((id field : Text) → is_pending_delta (pending id field) ≡ false)
    → ((p : PostRow)
        → In p (next_batch after (or_default batch 500) db.posts)
        → (check_of now (or_default quiet 300000000000) db p).busy ≡ false)
    → ((reconcile_once w pending (λ n ps. ps) batch quiet now after db).1 ≡ none)
      × Aligned
          (λ p q.
            (q.post_id ≡ p.post_id)
            × (In p (next_batch after (or_default batch 500) db.posts) → IsRepaired db q))
          db.posts
          (reconcile_once w pending (λ n ps. ps) batch quiet now after db).0.posts
unfolding reconcile_once
reconcile_repairs w pending batch quiet now after db calm flushed idle =
    let size = or_default batch 500 in
    let rows = next_batch after size db.posts in
    let q = or_default quiet 300000000000 in
    let start : Walk = record {
      posts = db.posts;
      checked = 0;
      fixed = 0;
      skipped = 0;
      after = next_position size rows;
    } in
    let done =
      reconcile_all-After db w pending now q calm flushed (λ p. ⊥) rows 1 start
        (All-of_In _ rows idle)
        (Aligned-refl (Covers db w pending now q calm flushed (λ p. ⊥))
          (λ p. record {
            kept = record { same_id = refl; counts = inl (refl, refl) };
            repaired = λ x. absurd x;
          })
          db.posts) in
    rw (calm 0) (
      done.1,
      Aligned-weaken _ _ db.posts _ (λ p r m c. (c.kept.same_id, λ at. c.repaired (inr at))) done.0,
    )
