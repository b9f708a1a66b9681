-- ===== src/Examples/Posting.antt =====
-- Runs of the post service on small tables.
use social_ai_backend.Common.{
  ◌≡◌, refl, true, false, none, some, [], ◌∷◌, ◌==◌, arith, In, Text, text_eq, find_first, ok,
}
use social_ai_backend.Common.Int.{pos}
use social_ai_backend.Common.Count.{count_if}
use social_ai_backend.Transaction.{Weather, calm, in_tx}
use social_ai_backend.Outbox.Table.{enqueue, mark_published, mark_failed}
use social_ai_backend.Outbox.Relay.{publish_now, fail, backoff}
use social_ai_backend.Post.Tables.{
  Db, PostRow, no_cleanup, like_column, column_of, like_field, has_post_id, insert_post,
}
use social_ai_backend.Post.Counts.{bump_counter}
use social_ai_backend.Post.Create.{
  NewPost, State, Clients, persist_tx, persisted, persist_new_post, save_post, record_event,
  delete_media, publish_after_commit,
}
use social_ai_backend.Post.Delete.{delete_post, announced, delete_tx, remove_post}
use social_ai_backend.Post.Live.{
  live_posts_by_id, live_posts_by_id_lem, found_posts, look_up, distinct,
}
use social_ai_backend.Post.Invariant.{IsValid}
use social_ai_backend.Post.Reachable.{Service, Reach, next, saves, deletes, reach-IsValid}
use social_ai_backend.Post.Counting.{BumpOutcome, bump_counter_lem}
use social_ai_backend.Post.Saving.{SaveOutcome, save_post_outcome}
use social_ai_backend.Post.Cleanup.{cleanup_deleted_posts}
use social_ai_backend.Post.Cleaning.{waits, waiting_in}
use social_ai_backend.Post.Drained.{cleanup_drains}
use social_ai_backend.Examples.Counting.{tiny, tiny_laws, untouched, post}
use social_ai_backend.Examples.Outboxing.{standard, shaky, sunny}

abbrev pub author : Text
author = b'a' ∷ []

abbrev pub no_posts : Db
no_posts = record {
  posts = [];
  likes = [];
  shares = [];
  outbox = record { rows = []; next_id = 1 };
}

abbrev upload : NewPost
upload = record { post_id = post; user_id = author; message = []; type = []; url = [] }

abbrev working : Clients
working = record {
  save_fails = false;
  delete_fails = false;
  failed_took_effect = false;
  image_fails = false;
  download_fails = false;
  link = λ id. id;
}

abbrev nothing : State
nothing = record { db = no_posts; media = [] }

-- The answer of a commit that took effect is lost.
abbrev lost_answer : Weather
lost_answer = record { fails = λ n. n == 9; commit_lost = true }

no_posts-IsValid : IsValid no_posts
unfolding count_if
no_posts-IsValid = record {
  unique = λ id. omega arith;
  created_told = λ id. refl;
  deleted_told = λ id. refl;
  liked_once = λ id user. omega arith;
  liked_told = λ id user. omega arith;
}

abbrev one_post : State
one_post = (save_post standard calm shaky working 5000000000 upload nothing).0

abbrev at_first : Service tiny [] standard
at_first = record { state = nothing; counters = untouched }

abbrev step_1 : Service tiny [] standard
step_1 = record at_first { state = one_post }

abbrev saved : Reach tiny [] standard at_first step_1
saved = next Reach.here (saves calm shaky working 5000000000 upload)

reach-IsValid_example : IsValid one_post.db
reach-IsValid_example = reach-IsValid tiny [] standard saved no_posts-IsValid

-- A commit without an answer: the post is there and its object is not.
dangling_run : (save_post standard lost_answer sunny working 5000000000 upload nothing).0.media ≡ []
unfolding save_post persist_new_post persisted persist_tx insert_post in_tx delete_media
    record_event enqueue text_eq
dangling_run = refl

save_post_outcome_example :
    SaveOutcome lost_answer 5000000000
      (record upload { url = post })
      nothing
      (save_post standard lost_answer sunny working 5000000000 upload nothing).0
      (save_post standard lost_answer sunny working 5000000000 upload nothing).1
save_post_outcome_example =
    save_post_outcome standard lost_answer sunny working 5000000000 refl upload nothing refl

abbrev pub stored_row : PostRow
stored_row = record {
  post_id = post;
  user_id = author;
  message = [];
  url = post;
  type = [];
  created_at = 5;
  deleted_at = none;
  cleanup_status = no_cleanup;
  cleanup_attempts = 0;
  cleanup_error = [];
  like_count = pos 0;
  share_count = pos 0;
  version = 1;
}

live_posts_by_id_lem_example :
    live_posts_by_id calm (post ∷ author ∷ post ∷ []) (stored_row ∷ [])
    ≡ ok (found_posts (look_up (stored_row ∷ [])) (distinct [] (post ∷ author ∷ post ∷ [])))
live_posts_by_id_lem_example =
    live_posts_by_id_lem calm (post ∷ author ∷ post ∷ []) (stored_row ∷ []) refl

like_field_known : column_of like_field ≡ some like_column
unfolding column_of text_eq
like_field_known = refl

stored_row_found : find_first (has_post_id post) (stored_row ∷ []) ≡ some stored_row
unfolding text_eq
stored_row_found = refl

abbrev pub stored_post : Db
stored_post = record no_posts { posts = stored_row ∷ [] }

bump_counter_lem_example :
    BumpOutcome tiny_laws [] calm post like_field like_column
      (pos 1)
      stored_post
      stored_row
      like_field_known
      stored_row_found
      untouched
      (bump_counter tiny [] calm post like_field (pos 1) untouched stored_post)
bump_counter_lem_example =
    bump_counter_lem tiny_laws [] calm post like_field like_column (pos 1) untouched stored_post
      stored_row like_field_known stored_row_found

abbrev deleted_post : Db
deleted_post = (delete_post standard calm sunny 9000000000 post author one_post.db).0

deleted_reached :
    Reach tiny [] standard at_first
      (record step_1 { state = record one_post { db = deleted_post } })
deleted_reached = next saved (deletes calm sunny 9000000000 post author)

one_waits : waiting_in deleted_post.posts ≡ 1
unfolding delete_post announced delete_tx remove_post save_post persist_new_post persisted
    persist_tx insert_post in_tx publish_after_commit publish_now mark_published fail mark_failed
    backoff record_event enqueue text_eq count_if
one_waits = refl

cleanup_drains_example :
    (waiting_in
        (cleanup_deleted_posts
          (λ _. calm)
          (λ _. working)
          (λ _. [])
          5
          (record one_post { db = deleted_post })).0.db.posts
      ≡ 0)
    × ((cleanup_deleted_posts
          (λ _. calm)
          (λ _. working)
          (λ _. [])
          5
          (record one_post { db = deleted_post })).1
        ≡ waiting_in deleted_post.posts)
    × ((cleanup_deleted_posts
          (λ _. calm)
          (λ _. working)
          (λ _. [])
          5
          (record one_post { db = deleted_post })).2
        ≡ none)
    × ((row : PostRow)
        → In row deleted_post.posts
        → waits row ≡ true
        → ¬ In row.post_id
            (cleanup_deleted_posts
              (λ _. calm)
              (λ _. working)
              (λ _. [])
              5
              (record one_post { db = deleted_post })).0.media)
cleanup_drains_example =
    cleanup_drains (λ _. calm) (λ _. working) (λ _. []) (λ n k. refl) (λ n. refl) 5
      (record one_post { db = deleted_post })
      (reach-IsValid tiny [] standard deleted_reached no_posts-IsValid) (omega (arith, one_waits))
