-- ===== src/Indexer/Rebuild.antt =====
-- `Reindex` (services/indexer/worker/indexer.go): a walk of the posts table, page by page.
use social_ai_backend.Common.{
  ℕ, zero, suc, ◌+◌, ◌-◌, ◌≤◌, ◌<◌, ◌≡◌, refl, sym, ap, subst, ◌∙◌, inl, inr, Bool, true, false,
  some, List, [], ◌∷◌, ◌++◌, append_assoc, arith, ltb, Bool-cases, keep, length, take, drop,
  take-append-drop, take_all, length-take, length-drop, cut_behind, All, All-append,
  All-append_left, All-append_right, All-take, All-weaken, Pairwise, Pairwise-take,
  Pairwise-append_right, Pairwise-across, Text, text_lt, is_empty, text_eq_comm, text_lt_irrefl,
  keep-All, ok,
}
use social_ai_backend.Common.Sort.{StrictlySorted}
use social_ai_backend.Common.Keyset.{keep_rest}
use social_ai_backend.Indexer.{
  State, World, sync_all, paged, next_ids, last_of, reindex_from, reindex,
}
use social_ai_backend.Indexer.Steps.{IsConsistent}
use social_ai_backend.Indexer.Current.{IsCurrent, Answers}
use social_ai_backend.Indexer.SyncAll.{
  text_lt-IsStrictWeak, text_lt-differ, Different-of_sorted, not_any, last_of-append, ArePresent,
  SameOutside, IsCurrent-same, sync_all-IsCurrent,
}

module _ {V : Type 0} where
  module _ (worlds : Text → World V) (answers : (id : Text) → Answers (worlds id)) where
    module _ (page_fails : ℕ → Bool) (calm : (n : ℕ) → page_fails n ≡ false) (size : ℕ)
        (pos : 0 < size) (ids : List Text) (sorted : StrictlySorted text_lt ids) where
      -- What stands after a part of the ids that ends with an element.
      after_part :
          (pre rest : List Text) (x : Text) → ids ≡ pre ++ x ∷ rest → keep (text_lt x) ids ≡ rest
      after_part pre rest x e = rw e (
          keep_rest text_lt text_lt-IsStrictWeak pre rest x
            (subst (StrictlySorted text_lt) e sorted) (text_lt_irrefl x))

      reindex_step :
          (fuel : ℕ) (after : Text) (n : ℕ) (s s' : State V) (page : List Text)
          → next_ids after size s.ids ≡ page
          → sync_all worlds page s ≡ (s', length page, ok tt)
          → reindex_from page_fails worlds size (suc fuel) after n s
            ≡ paged n
                (ltb (length page) size)
                (reindex_from page_fails worlds size fuel (last_of after page))
                (s', length page, ok tt)
      unfolding reindex_from
      reindex_step fuel after n s s' page e h = rw (reindex_from, calm n, e, h) refl

      -- The last id of a full page, and what stands after it.
      after_page :
          (pre rest : List Text) (after : Text)
          → ids ≡ pre ++ rest
          → size ≤ length rest
          → keep (text_lt (last_of after (take size rest))) ids ≡ drop size rest
      after_page pre rest after split enough =
          let (x, _, ends, e) = cut_behind (size - 1) rest (omega arith) in
          let full : suc (size - 1) ≡ size = omega arith in
          let ends' : take size rest ≡ take (size - 1) rest ++ x ∷ [] =
            subst (λ m. take m rest ≡ take (size - 1) rest ++ x ∷ []) full ends in
          let e' : rest ≡ take (size - 1) rest ++ x ∷ drop size rest =
            subst (λ m. rest ≡ take (size - 1) rest ++ x ∷ drop m rest) full e in
          let last : last_of after (take size rest) ≡ x =
            ap (last_of after) ends' ∙ last_of-append after x (take (size - 1) rest) in
          ap (λ (t : Text). keep (text_lt t) ids) last
          ∙ after_part (pre ++ take (size - 1) rest) (drop size rest) x (
              split
              ∙ ap (◌++◌ pre) e'
              ∙ sym (append_assoc pre (take (size - 1) rest) (x ∷ drop size rest)))

      IsCurrent-outside :
          (s s' : State V) (page : List Text)
          → SameOutside page s s'
          → (pre : List Text) → All (λ a. All (λ b. text_lt a b ≡ true) page) pre
          → All (λ id. IsCurrent id s) pre
          → All (λ id. IsCurrent id s') pre
      IsCurrent-outside s s' page same [] d c = tt
      IsCurrent-outside s s' page same (a ∷ pre) d c = (
        IsCurrent-same a s s'
            (same a (
              not_any a page
                (All-weaken _ _ (λ b h. text_eq_comm b a ∙ text_lt-differ a b h) page d.0)))
            c.0,
        IsCurrent-outside s s' page same pre d.1 c.1,
      )

      ArePresent-outside :
          (s s' : State V) (page : List Text)
          → SameOutside page s s'
          → (later : List Text) → All (λ a. All (λ b. text_lt a b ≡ true) later) page
          → ArePresent s later
          → ArePresent s' later
      ArePresent-outside s s' page same [] d p = tt
      ArePresent-outside s s' page same (b ∷ later) d ((row, at), p) = (
        (
          row,
          (same b (not_any b page (All-weaken _ _ (λ a h. text_lt-differ a b h.0) page d))).0 ∙ at,
        ),
        ArePresent-outside s s' page same later (All-weaken _ _ (λ a h. h.1) page d) p,
      )

      -- The Syncs of one page leave what was current before current, and what is still to come in place.
      page_synced :
          (pre rest : List Text) (s : State V)
          → ids ≡ pre ++ rest
          → IsConsistent s
          → All (λ id. IsCurrent id s) pre
          → ArePresent s rest
          → (s' : State V) × (sync_all worlds (take size rest) s
              ≡ (s', length (take size rest), ok tt))
            × (s'.ids ≡ s.ids)
            × IsConsistent s'
            × All (λ id. IsCurrent id s') (pre ++ take size rest)
            × ArePresent s' (drop size rest)
      page_synced pre rest s split v old p =
          let page : List Text = take size rest in
          let whole : Pairwise (λ a b. text_lt a b ≡ true) (pre ++ rest) =
            subst (StrictlySorted text_lt) split sorted in
          let ordered = Pairwise-append_right _ pre rest whole in
          let across = Pairwise-across _ pre rest whole in
          let parts : page ++ drop size rest ≡ rest = take-append-drop size rest in
          let present : ArePresent s (page ++ drop size rest) =
            subst (ArePresent s) (sym parts) p in
          let (s', done, fresh, ids', outside, v') =
            sync_all-IsCurrent worlds answers page s
              (Different-of_sorted page (Pairwise-take _ size rest ordered)) v
              (All-append_left _ page (drop size rest) present) in
          let kept : All (λ id. IsCurrent id s') pre =
            IsCurrent-outside s s' page outside pre
              (All-weaken _ _ (λ a h. All-take _ size rest h) pre across) old in
          let later : ArePresent s' (drop size rest) =
            ArePresent-outside s s' page outside (drop size rest)
              (Pairwise-across _ page (drop size rest)
                (subst (Pairwise (λ a b. text_lt a b ≡ true)) (sym parts) ordered))
              (All-append_right _ page (drop size rest) present) in
          (s', done, ids', v', All-append _ pre page kept fresh, later)

      -- The pages from the one after `pre` on.
      reindex_loop :
          (fuel : ℕ) (pre rest : List Text) (after : Text) (n : ℕ) (s : State V)
          → s.ids ≡ ids
          → ids ≡ pre ++ rest
          → keep (text_lt after) ids ≡ rest
          → IsConsistent s
          → All (λ id. IsCurrent id s) pre
          → ArePresent s rest
          → length rest < fuel
          → (s' : State V) × (reindex_from page_fails worlds size fuel after n s
              ≡ some (s', n + length rest, ok tt))
            × All (λ id. IsCurrent id s') ids
      reindex_loop zero pre rest after n s same split left v old p enough = absurd (omega arith)
      reindex_loop (suc fuel) pre rest after n s same split left v old p enough =
          let page : List Text = take size rest in
          let (s', done, ids', v', all_new, later) = page_synced pre rest s split v old p in
          let step = reindex_step fuel after n s s' page (rw (same, left) refl) done in
          elim (Bool-cases (ltb (length page) size)) [
            | inl last ↦
                let all : page ≡ rest =
                  take_all size rest (ground (arith, last, length-take size rest)) in
                (
                  s',
                  step ∙ rw last (ap (λ (xs : List Text). some (s', n + length xs, ok tt)) all),
                  subst (All (λ id. IsCurrent id s')) (ap (◌++◌ pre) all ∙ sym split) all_new,
                )
            | inr more ↦
                let full : size ≤ length rest = ground (arith, more, length-take size rest) in
                let (s'', ends, current) =
                  reindex_loop fuel (pre ++ page) (drop size rest) (last_of after page)
                    (n + length page) s' (ids' ∙ same)
                    (split
                      ∙ ap (◌++◌ pre) (sym (take-append-drop size rest))
                      ∙ sym (append_assoc pre page (drop size rest)))
                    (after_page pre rest after split full) v' all_new later
                    (omega (arith, length-drop size rest)) in
                let count : n + length page + length (drop size rest) ≡ n + length rest =
                  omega (arith, length-drop size rest, length-take size rest) in
                (s'', step ∙ rw more (ends ∙ ap (λ (m : ℕ). some (s'', m, ok tt)) count), current)
          ]

  -- When its calls of the database and of Elasticsearch are answered, Reindex ends with the number
  -- of posts, and every post's document is then the projection of its row. As many pages as there
  -- are posts, and one more, are enough. The size of a page is to be positive, the ids of the table
  -- in their strict order and not empty, each with a row, and the documents projections of rows.
  pub reindex-IsCurrent :
      (worlds : Text → World V) (page_fails : ℕ → Bool) (size fuel : ℕ) (s : State V)
      → ((id : Text) → Answers (worlds id))
      → ((n : ℕ) → page_fails n ≡ false)
      → 0 < size
      → length s.ids < fuel
      → StrictlySorted text_lt s.ids
      → All (λ id. is_empty id ≡ false) s.ids
      → ArePresent s s.ids
      → IsConsistent s
      → (s' : State V) × (reindex page_fails worlds size fuel s ≡ some (s', length s.ids, ok tt))
        × All (λ id. IsCurrent id s') s.ids
  unfolding reindex
  reindex-IsCurrent worlds page_fails size fuel s answers calm pos enough sorted named present v =
      let (s', ends, current) =
        reindex_loop worlds answers page_fails calm size pos s.ids sorted fuel [] s.ids [] 0 s refl
          refl (keep-All (text_lt []) s.ids (All-weaken _ _ first s.ids named)) v tt present
          enough in
      let count : 0 + length s.ids ≡ length s.ids = omega arith in
      (s', ends ∙ ap (λ (m : ℕ). some (s', m, ok tt)) count, current)
    where
      first : (id : Text) → is_empty id ≡ false → text_lt [] id ≡ true
      first [] h = cc
      first (c ∷ id) h = unfold text_lt in refl
