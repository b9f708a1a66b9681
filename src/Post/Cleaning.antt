-- ===== src/Post/Cleaning.antt =====
-- `CleanupDeletedPosts` (services/post/service/post.go) when the database and the object store answer.
use social_ai_backend.Common.{
  ℕ, suc, ◌≤◌, ◌≡◌, refl, sym, ap, subst, ◌∙◌, inl, inr, Bool, true, false, none, some, List, [],
  ◌∷◌, arith, Bool-cases, find_first, keep, length, In, here, there, In-cons, In-keep_inv, Text,
  text_eq_refl,
}
use social_ai_backend.Common.Count.{count_if}
use social_ai_backend.Common.Sort.{sort, sort-In, length-sort}
use social_ai_backend.Post.Tables.{
  PostRow, has_post_id, update_post, is_waiting, deleted_earlier, next_cleanup,
}
use social_ai_backend.Post.Cleanup.{clean_completed}

abbrev pub waits : PostRow → Bool
waits p = is_waiting p.cleanup_status

-- How many posts wait for the removal of their media.
abbrev pub waiting_in : List PostRow → ℕ
waiting_in = count_if waits

length-keep : (ps : List PostRow) → length (keep waits ps) ≡ waiting_in ps
unfolding count_if
length-keep [] = refl
length-keep (p ∷ ps) = elim (Bool-cases (waits p)) [
  | inl e ↦ rw e (omega (arith, length-keep ps))
  | inr e ↦ rw e (omega (arith, length-keep ps))
]

first_none : (ps : List PostRow) → find_first (λ _. true) ps ≡ none → length ps ≡ 0
first_none [] e = refl
first_none (p ∷ ps) e = cc

first_some : (ps : List PostRow) (row : PostRow) → find_first (λ _. true) ps ≡ some row → In row ps
first_some [] row e = cc
first_some (p ∷ ps) row e = subst (λ q. In q (p ∷ ps)) (some_inj e) here
  where
    some_inj : {a b : PostRow} → some a ≡ some b → a ≡ b
    some_inj q = cc

pub next_cleanup-none : (ps : List PostRow) → next_cleanup ps ≡ none → waiting_in ps ≡ 0
unfolding next_cleanup
next_cleanup-none ps e =
    sym (length-keep ps)
    ∙ sym (length-sort deleted_earlier (keep waits ps))
    ∙ first_none (sort deleted_earlier (keep waits ps)) e

pub next_cleanup-some :
    (ps : List PostRow) (row : PostRow)
    → next_cleanup ps ≡ some row
    → In row ps × (waits row ≡ true)
unfolding next_cleanup
next_cleanup-some ps row e = In-keep_inv waits ps (
    sort-In deleted_earlier (keep waits ps)
      (first_some (sort deleted_earlier (keep waits ps)) row e))

pub count-In :
    (id : Text) (ps : List PostRow) {row : PostRow}
    → In row ps
    → has_post_id id row ≡ true
    → 1 ≤ count_if (has_post_id id) ps
unfolding count_if
count-In id [] m e = elim m [ ]
count-In id (p ∷ ps) here e = rw e (omega arith)
count-In id (p ∷ ps) (there m) e = omega (arith, count-In id ps m e)

-- Without a post of the id, an update changes nothing.
untouched :
    (id : Text) (ps : List PostRow)
    → count_if (has_post_id id) ps ≡ 0
    → update_post id clean_completed ps ≡ ps
unfolding count_if
untouched id [] e = refl
untouched id (p ∷ ps) e = elim (Bool-cases (has_post_id id p)) [
  | inl h ↦ absurd (ground (arith, h, e))
  | inr h ↦ rw h (ap (◌∷◌ p) (untouched id ps (ground (arith, h, e))))
]

-- The clean-up of one waiting post leaves one waiting post fewer.
pub one_fewer :
    (row : PostRow) (ps : List PostRow)
    → In row ps
    → waits row ≡ true
    → count_if (has_post_id row.post_id) ps ≤ 1
    → suc (waiting_in (update_post row.post_id clean_completed ps)) ≡ waiting_in ps
unfolding count_if
one_fewer row [] m e u = elim m [ ]
one_fewer row (p ∷ ps) m e u = elim (Bool-cases (has_post_id row.post_id p)) [
  | inl h ↦ elim (In-cons m) [
    | inl same ↦
        let waits_too : waits p ≡ true = subst (λ q. waits q ≡ true) (sym same) e in
        rw (h, untouched row.post_id ps (ground (arith, u, h)), waits_too) (omega arith)
    | inr later ↦
        absurd (ground (arith, u, h, count-In row.post_id ps later (text_eq_refl row.post_id)))
  ]
  | inr h ↦ elim (In-cons m) [
    | inl same ↦ absurd (
        ground
          (arith, h, subst (λ q. has_post_id q.post_id p ≡ true) same (text_eq_refl p.post_id)))
    | inr later ↦ rw h (omega (arith, one_fewer row ps later e (ground (arith, u, h))))
  ]
]

-- A post of another id is still there.
pub In-update :
    (id : Text) (ps : List PostRow) {row : PostRow}
    → In row ps
    → has_post_id id row ≡ false
    → In row (update_post id clean_completed ps)
In-update id [] m e = elim m [ ]
In-update id (p ∷ ps) here e = rw e here
In-update id (p ∷ ps) (there m) e = there (In-update id ps m e)

pub waiting-In :
    (ps : List PostRow) {row : PostRow} → In row ps → waits row ≡ true → 1 ≤ waiting_in ps
unfolding count_if
waiting-In [] m e = elim m [ ]
waiting-In (p ∷ ps) here e = rw e (omega arith)
waiting-In (p ∷ ps) (there m) e = omega (arith, waiting-In ps m e)
