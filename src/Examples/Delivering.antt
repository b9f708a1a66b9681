-- ===== src/Examples/Delivering.antt =====
-- A post that is pushed by one goroutine after the other, and a like that is delivered twice.
use social_ai_backend.Common.{
  ℕ, ◌+◌, ◌<◌, ◌≡◌, refl, ◌⊎◌, inl, false, none, some, List, [], ◌∷◌, ◌++◌, arith, All, In, Text,
  text_eq, Attempt, ok,
}
use social_ai_backend.Common.Int.{pos}
use social_ai_backend.Transaction.{calm, exec}
use social_ai_backend.Feed.Plan.{with_defaults}
use social_ai_backend.Feed.Batches.{batches}
use social_ai_backend.Feed.Merge.{Item}
use social_ai_backend.Feed.FanOut.{Run, Reach, launched, next, starts, succeeds, launch, IsFinished}
use social_ai_backend.Feed.FanOut.Ending.{Ends}
use social_ai_backend.Feed.Worker.{Error, World, Delivered, handle_post_created}
use social_ai_backend.Feed.Worker.Delivery.{handle_delivers}
use social_ai_backend.Social.Graph.{followers_of}
use social_ai_backend.Post.Tables.{PostCreatedEvent, PostLikedEvent}
use social_ai_backend.Notification.{handle_post_liked, handle_again, insert_notification}
use social_ai_backend.Examples.Feeds.{unset}
use social_ai_backend.Examples.Following.{ann, ben, one_follow, one_follow-IsValid}

-- One batch at a time.
abbrev at_batch : List (List Text) → ℕ → List Text → Run Error
at_batch bs trips written = record {
  waiting = bs;
  in_flight = [];
  trips = trips;
  first_err = none;
  written = written;
  cancelled = false;
}

abbrev one_by_one : List (List Text) → ℕ → List Text → Run Error
one_by_one [] trips written = at_batch [] trips written
one_by_one (b ∷ bs) trips written = one_by_one bs (trips + 1) (b ++ written)

one_by_one-Reach :
    (n : ℕ) (r : Run Error) (bs : List (List Text)) (trips : ℕ) (written : List Text)
    → 0 < n
    → Reach n r (at_batch bs trips written)
    → Reach n r (one_by_one bs trips written)
one_by_one-Reach n r [] trips written room so_far = so_far
one_by_one-Reach n r (b ∷ bs) trips written room so_far =
    one_by_one-Reach n r bs (trips + 1) (b ++ written) room
      (next (next so_far (starts b bs refl room)) (succeeds [] [] b refl))

one_by_one-IsFinished :
    (bs : List (List Text)) (trips : ℕ) (written : List Text)
    → IsFinished (one_by_one bs trips written)
one_by_one-IsFinished [] trips written = record { loop_done = inl refl; waited = refl }
one_by_one-IsFinished (b ∷ bs) trips written = one_by_one-IsFinished bs (trips + 1) (b ++ written)

abbrev push_all : List Text → Item → Run Error
push_all followers it = one_by_one (batches followers (pos (with_defaults unset).batch_size)) 0 []

has_room : 0 < (with_defaults unset).parallelism
unfolding with_defaults
has_room = omega arith

abbrev fresh_post : PostCreatedEvent
fresh_post = record {
  post_id = 1 ∷ [];
  user_id = ann;
  message = [];
  url = [];
  type = [];
  created_at = 5;
}

abbrev fair : World
fair = record { counting = calm; listing = calm; s_add_fails = false; s_add_lost = false; now = 6 }

handle_delivers_example :
    ((followers : List Text) (run : Run Error)
      → Reach (with_defaults unset).parallelism (launch unset followers) run
      → Ends (with_defaults unset).parallelism run)
    × ((d : Delivered) × (r : Attempt Error (Unit {0})) × (handle_post_created unset push_all fair
            (some fresh_post)
            one_follow.follows
            []
          ≡ some (d, r))
        × (r ≡ ok tt
            → All
                (λ e. In ann d.celebrities ⊎ In e.id d.pushed_to)
                (followers_of ann one_follow.follows)))
unfolding text_eq
handle_delivers_example =
    handle_delivers unset push_all fair fresh_post one_follow []
      (λ followers it. (
        one_by_one-Reach (with_defaults unset).parallelism (launch unset followers)
            (batches followers (pos (with_defaults unset).batch_size)) 0 [] has_room launched,
        one_by_one-IsFinished (batches followers (pos (with_defaults unset).batch_size)) 0 [],
      ))
      refl (λ n. refl) one_follow-IsValid (refl, tt)

abbrev a_like : PostLikedEvent
a_like = record { post_id = 1 ∷ []; liker_id = ben; owner_id = ann; created_at = 5 }

like_stored : (handle_post_liked calm 7 (some a_like) []).1 ≡ ok tt
unfolding handle_post_liked exec insert_notification text_eq
like_stored = refl

handle_again_example :
    (handle_post_liked calm 9 (some a_like) (handle_post_liked calm 7 (some a_like) []).0).0
    ≡ (handle_post_liked calm 7 (some a_like) []).0
handle_again_example = handle_again calm calm 7 9 a_like [] like_stored
