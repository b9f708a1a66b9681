-- ===== src/Feed/Worker.antt =====
-- services/feed/worker/feed_worker.go: `HandlePostCreated`. The fan-out is a parameter here: the run of
-- Feed/FanOut that the scheduler chose for some followers and an entry.
pub mod Delivery
use social_ai_backend.Common.{
  ℕ, ◌+◌, Bool, Option, none, some, List, [], ◌∷◌, ◌==◌, if◌then◌else◌, Text, Attempt, ok, err,
}
use social_ai_backend.Transaction.{Weather}
use social_ai_backend.Feed.Plan.{Policy, Mode, push, pull, with_defaults, decide}
use social_ai_backend.Feed.Merge.{Item}
use social_ai_backend.Feed.FanOut.{Run, result}
use social_ai_backend.Social.Graph
use social_ai_backend.Social.Graph.{FollowRow, follower_count_up_to, all_followers}
use social_ai_backend.Post.Tables.{PostCreatedEvent}

-- The errors that the handler returns, by the call that failed; `not_read` is an event that is no JSON.
pub data Error : Type 0 where
  not_read not_counted not_marked not_listed not_pushed : Error

-- What the calls of one handling meet: the count and the list of the followers, SADD, the clock.
pub record World : Type 0 where
  pub counting : Weather
  pub listing : Weather
  pub s_add_fails : Bool
  pub s_add_lost : Bool
  pub now : ℕ

-- The set of the authors whose posts are pulled, and the followers whose feeds took the post.
pub record Delivered : Type 0 where
  pub celebrities : List Text
  pub pushed_to : List Text

abbrev pub entry_for : World → PostCreatedEvent → Item
entry_for w event = record {
  post_id = event.post_id;
  author_id = event.user_id;
  created_at = if event.created_at == 0 then w.now else event.created_at;
}

-- The branch for an author above the threshold.
unfoldable pub mark_celebrity : World → Text → List Text → Delivered × Attempt Error (Unit {0})
mark_celebrity w user celebs =
    if w.s_add_fails
    then (
      record { celebrities = if w.s_add_lost then user ∷ celebs else celebs; pushed_to = [] },
      err not_marked,
    )
    else (record { celebrities = user ∷ celebs; pushed_to = [] }, ok tt)

abbrev pub failed_with : Option Error → Attempt Error (Unit {0})
failed_with none = ok tt
failed_with (some e) = err e

-- The branch that pushes, for the followers as they were read.
abbrev pub pushed :
    (List Text → Item → Run Error)
    → World
    → PostCreatedEvent
    → List Text
    → Graph.Result (List Text)
    → Delivered × Attempt Error (Unit {0})
pushed fan_out w event celebs (err e) =
    (record { celebrities = celebs; pushed_to = [] }, err not_listed)
pushed fan_out w event celebs (ok followers) =
    let run = fan_out followers (entry_for w event) in
    (record { celebrities = celebs; pushed_to = run.written }, failed_with (result not_pushed run))

-- What follows the count; `none` would mean that the fuel of `AllFollowers` ran out.
unfoldable pub serve :
    Policy
    → (List Text → Item → Run Error)
    → World
    → PostCreatedEvent
    → List FollowRow
    → List Text
    → ℕ
    → Option (Delivered × Attempt Error (Unit {0}))
unfolding mark_celebrity
serve p fan_out w event follows celebs total =
    if total == 0
    then some (record { celebrities = celebs; pushed_to = [] }, ok tt)
    else (elim (decide p total) [
      | pull ↦ some (mark_celebrity w event.user_id celebs)
      | push ↦
          elim (all_followers w.listing event.user_id (with_defaults p).celebrity_threshold
            follows) [ none ↦ none | some read ↦ some (pushed fan_out w event celebs read) ]
    ])

-- `HandlePostCreated` for the event that the message was read as.
unfoldable pub handle_post_created :
    Policy
    → (List Text → Item → Run Error)
    → World
    → Option PostCreatedEvent
    → List FollowRow
    → List Text
    → Option (Delivered × Attempt Error (Unit {0}))
unfolding serve
handle_post_created p fan_out w none follows celebs =
    some (record { celebrities = celebs; pushed_to = [] }, err not_read)
handle_post_created p fan_out w (some event) follows celebs =
    elim (follower_count_up_to w.counting event.user_id ((with_defaults p).celebrity_threshold + 1)
      follows) [
        | err e ↦ some (record { celebrities = celebs; pushed_to = [] }, err not_counted)
        | ok total ↦ serve p fan_out w event follows celebs total
      ]
