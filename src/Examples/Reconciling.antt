-- ===== src/Examples/Reconciling.antt =====
-- A pass of the reconciler over a post whose count lost a like.
use social_ai_backend.Common.{
  ℕ, ◌≡◌, refl, false, none, [], ◌∷◌, All-In, In, Aligned, Text, text_eq, text_lt,
}
use social_ai_backend.Common.Int.{pos, or_default}
use social_ai_backend.Common.Sort.{sort, insert_sorted}
use social_ai_backend.Transaction.{calm}
use social_ai_backend.Post.Tables.{Db, PostRow}
use social_ai_backend.Post.Reconcile.{
  Reading, missing, check_of, next_batch, next_position, update_counts, has_pending_delta,
  reconcile, reconcile_all, reconcile_once,
}
use social_ai_backend.Post.Reconciled.{IsRepaired}
use social_ai_backend.Post.Repairs.{reconcile_repairs}
use social_ai_backend.Examples.Posting.{stored_row, stored_post}
use social_ai_backend.Examples.Counting.{post}

abbrev liked_post : Db
liked_post = record stored_post {
  likes = record { post_id = post; user_id = b'u' ∷ []; created_at = 7 } ∷ [];
}

abbrev nothing_pending : Text → Text → Reading
nothing_pending id field = missing

abbrev later : ℕ
later = 1000000000000

repaired_run :
    (reconcile_once calm nothing_pending (λ n ps. ps) (pos 0) (pos 0) later [] liked_post).0.posts
    ≡ record stored_row { like_count = pos 1 } ∷ []
unfolding reconcile_once reconcile_all reconcile has_pending_delta update_counts next_batch
    next_position check_of sort insert_sorted text_eq text_lt
repaired_run = refl

idle :
    (p : PostRow)
    → In p (next_batch [] (or_default (pos 0) 500) liked_post.posts)
    → (check_of later (or_default (pos 0) 300000000000) liked_post p).busy ≡ false
unfolding next_batch check_of sort insert_sorted text_lt text_eq
idle p m =
    All-In (λ p. (check_of later (or_default (pos 0) 300000000000) liked_post p).busy ≡ false)
      (stored_row ∷ []) (refl, tt) m

reconcile_repairs_example :
    ((reconcile_once calm nothing_pending (λ n ps. ps) (pos 0) (pos 0) later [] liked_post).1
      ≡ none)
    × Aligned
        (λ p q.
          (q.post_id ≡ p.post_id)
          × (In p (next_batch [] (or_default (pos 0) 500) liked_post.posts)
              → IsRepaired liked_post q))
        liked_post.posts
        (reconcile_once calm nothing_pending
          (λ n ps. ps)
          (pos 0)
          (pos 0)
          later
          []
          liked_post).0.posts
reconcile_repairs_example =
    reconcile_repairs calm nothing_pending (pos 0) (pos 0) later [] liked_post (λ n. refl)
      (λ id field. refl) idle
