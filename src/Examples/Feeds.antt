-- ===== src/Examples/Feeds.antt =====
-- Runs of the home-feed logic.
use mathlib.Core.List.{flatten}
use social_ai_backend.Common.{
  ℕ, ◌≡◌, ◌≤◌, refl, ◌⊎◌, false, List, [], ◌∷◌, length, All, Pairwise, is_empty, text_eq, text_lt,
}
use social_ai_backend.Common.Int.{ℤ, pos, negsuc}
use social_ai_backend.Common.Sort.{StrictlySorted, sort, insert_sorted}
use social_ai_backend.Feed.Plan.{Policy}
use social_ai_backend.Feed.Batches.{batches, flatten-batches, IsChunked, batches-IsChunked}
use social_ai_backend.Feed.Merge.{Item, newer, merge, before, cursor_of}
use social_ai_backend.Feed.Merge.Order.{Distinct, merge_sorted}
use social_ai_backend.Feed.Merge.Paging.{before-cursor_of}

abbrev pub unset : Policy
unset = record {
  celebrity_threshold = pos 3;
  batch_size = negsuc 0;
  parallelism = pos 0;
  max_feed_len = pos 0;
  feed_ttl = pos 0;
}

abbrev five_ids : List ℤ
five_ids = pos 1 ∷ pos 2 ∷ pos 3 ∷ pos 4 ∷ pos 5 ∷ []

batches_run :
    batches five_ids (pos 2) ≡ (pos 1 ∷ pos 2 ∷ []) ∷ (pos 3 ∷ pos 4 ∷ []) ∷ (pos 5 ∷ []) ∷ []
unfolding batches
batches_run = refl

flatten-batches_example : flatten (batches five_ids (pos 2)) ≡ five_ids
flatten-batches_example = flatten-batches five_ids (pos 2)

batches-IsChunked_example : IsChunked 2 (batches five_ids (pos 2))
batches-IsChunked_example = batches-IsChunked five_ids (pos 2)

abbrev old : Item
old = record { post_id = 1 ∷ []; author_id = 7 ∷ []; created_at = 10 }

abbrev tied : Item
tied = record { post_id = 2 ∷ []; author_id = 7 ∷ []; created_at = 10 }

abbrev recent : Item
recent = record { post_id = 3 ∷ []; author_id = 8 ∷ []; created_at = 20 }

-- A pushed and a pulled list that share a post.
abbrev two_lists : List (List Item)
two_lists = (recent ∷ old ∷ []) ∷ (tied ∷ old ∷ []) ∷ []

merge_run : merge 0 two_lists ≡ recent ∷ tied ∷ old ∷ []
unfolding merge sort insert_sorted newer text_eq text_lt
merge_run = refl

merge_sorted_example :
    StrictlySorted newer (merge 2 two_lists)
    × Pairwise Distinct (merge 2 two_lists)
    × All (λ it. is_empty it.post_id ≡ false) (merge 2 two_lists)
    × ((◌≡◌ {A = ℕ} 2 0) ⊎ (length (merge 2 two_lists) ≤ 2))
merge_sorted_example = merge_sorted 2 two_lists

before-cursor_of_example : before (merge 0 two_lists) (cursor_of tied) ≡ old ∷ []
before-cursor_of_example = before-cursor_of 0 two_lists (recent ∷ []) (old ∷ []) tied merge_run
