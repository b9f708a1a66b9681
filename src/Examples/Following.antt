-- ===== src/Examples/Following.antt =====
-- Runs of the social service on a small table.
use social_ai_backend.Common.{◌≡◌, refl, some, [], ◌∷◌, map, take, Text, text_eq, text_lt, ok}
use social_ai_backend.Common.Sort.{sort, insert_sorted}
use social_ai_backend.Transaction.{calm, exec}
use social_ai_backend.Social.Graph.{
  newest, followers_of, all_followers, read_followers, followers, page, fill_page, select_page,
  is_past,
}
use social_ai_backend.Social.Follow.{
  Db, add_follow, remove_follow, check_follow, answered, insert_follow,
}
use social_ai_backend.Social.Valid.{IsValid, follow_keeps}
use social_ai_backend.Social.Paging.{all_followers_lem}

abbrev pub ann : Text
ann = b'a' ∷ []

abbrev pub ben : Text
ben = b'b' ∷ []

abbrev pub cat : Text
cat = b'c' ∷ []

abbrev pub one_follow : Db
one_follow = record {
  users = ann ∷ ben ∷ cat ∷ [];
  follows = record { follower_id = ben; followee_id = ann; created_at = 3 } ∷ [];
}

pub one_follow-IsValid : IsValid one_follow
unfolding text_eq
one_follow-IsValid = record { unique = (tt, tt); no_self = (refl, tt) }

abbrev two_follows : Db
two_follows = (add_follow calm 4 cat ann one_follow).0

follow_keeps_example :
    IsValid (add_follow calm 4 cat ann one_follow).0
    × IsValid (remove_follow calm cat ann one_follow).0
follow_keeps_example = follow_keeps calm 4 cat ann one_follow one_follow-IsValid

two_read : all_followers calm ann 5 two_follows.follows ≡ some (ok (cat ∷ ben ∷ []))
unfolding all_followers read_followers followers page fill_page select_page is_past newest sort
    insert_sorted add_follow check_follow answered insert_follow exec text_eq text_lt
two_read = refl

all_followers_lem_example :
    all_followers calm ann 1 two_follows.follows
    ≡ some (ok (map (λ e. e.id) (take 1 (sort newest (followers_of ann two_follows.follows)))))
unfolding add_follow check_follow answered insert_follow exec text_eq
all_followers_lem_example =
    all_followers_lem calm ann 1 two_follows (λ n. refl) follow_keeps_example.0 (refl, (refl, tt))
