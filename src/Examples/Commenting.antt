-- ===== src/Examples/Commenting.antt =====
-- A comment and a reply to it.
use social_ai_backend.Common.{◌≡◌, refl, [], ◌∷◌, Text, text_eq, ok}
use social_ai_backend.Transaction.{calm}
use social_ai_backend.Post.Comments.{
  Threads, add_comment, prepared, prepare, place, answered_insert, insert_comment,
}
use social_ai_backend.Post.Threaded.{IsThreaded, add_comment-IsThreaded}
use social_ai_backend.Examples.Posting.{stored_row, author}
use social_ai_backend.Examples.Counting.{post}

abbrev no_comments : Threads
no_comments = record { posts = stored_row ∷ []; comments = [] }

abbrev opening : Text
opening = b'c' ∷ []

abbrev answer : Text
answer = b'd' ∷ []

abbrev one_comment : Threads
one_comment = (add_comment calm 3 opening post [] author (b'x' ∷ []) no_comments).0

one_comment-IsThreaded : IsThreaded one_comment
one_comment-IsThreaded =
    add_comment-IsThreaded calm 3 opening post [] author (b'x' ∷ []) no_comments
      (record { anchored = tt })

reply_run : (add_comment calm 4 answer post opening author (b'y' ∷ []) one_comment).1 ≡ ok answer
unfolding add_comment prepared prepare place answered_insert insert_comment text_eq
reply_run = refl

add_comment-IsThreaded_example :
    IsThreaded (add_comment calm 4 answer post opening author (b'y' ∷ []) one_comment).0
add_comment-IsThreaded_example =
    add_comment-IsThreaded calm 4 answer post opening author (b'y' ∷ []) one_comment
      one_comment-IsThreaded
