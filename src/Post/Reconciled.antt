-- ===== src/Post/Reconciled.antt =====
-- A pass of the reconciler (services/post/service/reconcile.go) while nothing else changes the counts.
use social_ai_backend.Common.{
  ℕ, ◌≡◌, refl, sym, ap, subst, ◌∙◌, ◌⊎◌, inl, inr, true, ◌&&◌, arith, Bool-cases, length,
  text_eq_refl, text_eq→eq,
}
use social_ai_backend.Common.Int.{ℤ, pos, eqb_ℤ, eqb_ℤ_iff}
use social_ai_backend.Post.Tables.{Db, PostRow}
use social_ai_backend.Post.Reconcile.{Check, check_of, likes_on, shares_on, matches, repair}

-- The counts are the numbers of rows.
pub record IsRepaired (db : Db) (q : PostRow) : Type 0 where
  pub of_likes : q.like_count ≡ pos (length (likes_on q.post_id db))
  pub of_shares : q.share_count ≡ pos (length (shares_on q.post_id db))

module _ (db : Db) where
  pub record Sound (c : Check) : Type 0 where
    pub sound_likes : c.n_like ≡ length (likes_on c.id db)
    pub sound_shares : c.n_shr ≡ length (shares_on c.id db)

  -- A row and what became of it.
  pub record Kept (p q : PostRow) : Type 0 where
    pub same_id : q.post_id ≡ p.post_id
    pub counts : ((q.like_count ≡ p.like_count) × (q.share_count ≡ p.share_count)) ⊎ IsRepaired db q

  IsRepaired-now :
      (c : Check) (q : PostRow)
      → Sound c
      → matches c q ≡ true
      → IsRepaired db (record q { like_count = pos c.n_like; share_count = pos c.n_shr })
  IsRepaired-now c q s e =
      let same : c.id ≡ q.post_id = text_eq→eq c.id q.post_id (ground (arith, e)) in
      record {
        of_likes = ap pos (s.sound_likes ∙ ap (λ id. length (likes_on id db)) same);
        of_shares = ap pos (s.sound_shares ∙ ap (λ id. length (shares_on id db)) same);
      }

  pub repair-IsRepaired :
      (c : Check) (q : PostRow) → Sound c → IsRepaired db q → IsRepaired db (repair c q)
  repair-IsRepaired c q s h = elim (Bool-cases (matches c q)) [
    | inl e ↦ rw e (IsRepaired-now c q s e)
    | inr e ↦ rw e h
  ]

  pub repair-Kept : (c : Check) (p q : PostRow) → Sound c → Kept p q → Kept p (repair c q)
  repair-Kept c p q s h = elim (Bool-cases (matches c q)) [
    | inl e ↦ rw e (record { same_id = h.same_id; counts = inr (IsRepaired-now c q s e) })
    | inr e ↦ rw e h
  ]

  eqb_refl : (a b : ℤ) → a ≡ b → eqb_ℤ a b ≡ true
  eqb_refl a b e = (eqb_ℤ_iff a b).1 e

  module _ (now quiet : ℕ) where
    pub check_of-Sound : (p : PostRow) → Sound (check_of now quiet db p)
    unfolding check_of
    check_of-Sound p = record { sound_likes = refl; sound_shares = refl }

    -- The row's own check repairs it.
    pub own_repair : (p q : PostRow) → Kept p q → IsRepaired db (repair (check_of now quiet db p) q)
    unfolding check_of
    own_repair p q h = elim h.counts [
      | inr r ↦ repair-IsRepaired (check_of now quiet db p) q (check_of-Sound p) r
      | inl (e, f) ↦
          let m : matches (check_of now quiet db p) q ≡ true =
            rw
              (
                sym h.same_id,
                text_eq_refl q.post_id,
                eqb_refl q.like_count p.like_count e,
                eqb_refl q.share_count p.share_count f,
              )
              refl in
          rw m (IsRepaired-now (check_of now quiet db p) q (check_of-Sound p) m)
    ]

    -- A row that needs no repair.
    pub balanced :
        (p q : PostRow)
        → eqb_ℤ p.like_count (pos (length (likes_on p.post_id db)))
            && eqb_ℤ p.share_count (pos (length (shares_on p.post_id db)))
          ≡ true
        → Kept p q
        → IsRepaired db q
    balanced p q e h = elim h.counts [
      | inr r ↦ r
      | inl (f, g) ↦
          let l =
            (eqb_ℤ_iff p.like_count (pos (length (likes_on p.post_id db)))).0 (ground (arith, e)) in
          let m =
            (eqb_ℤ_iff p.share_count (pos (length (shares_on p.post_id db)))).0
              (ground (arith, e)) in
          record {
            of_likes =
                f ∙ subst (λ id. p.like_count ≡ pos (length (likes_on id db))) (sym h.same_id) l;
            of_shares =
                g ∙ subst (λ id. p.share_count ≡ pos (length (shares_on id db))) (sym h.same_id) m;
          }
    ]
