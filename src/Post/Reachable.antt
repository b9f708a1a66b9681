-- ===== src/Post/Reachable.antt =====
-- Sequences of requests of services/post/service/post.go, of rounds of the clean-up and of passes of the
-- relay, each in a weather of its own.
use social_ai_backend.Common.{ℕ, Text}
use social_ai_backend.Transaction.{Weather}
use social_ai_backend.Counter.{Store}
use social_ai_backend.Outbox.Relay.{Settings, World}
use social_ai_backend.Post.Tables.{Db, ShareRow}
use social_ai_backend.Post.Create.{NewPost, State, Clients, save_post}
use social_ai_backend.Post.Delete.{delete_post}
use social_ai_backend.Post.Likes.{like_post, unlike_post, share_post}
use social_ai_backend.Post.Cleanup.{clean_round}
use social_ai_backend.Post.Invariant.{IsValid}
use social_ai_backend.Post.Valid.{
  relayed, relayed-IsValid, save_post-IsValid, delete_post-IsValid, like_post-IsValid,
  unlike_post-IsValid, share_post-IsValid, clean_round-IsValid,
}

module _ {S : Type 0} (store : Store S) (prefix : Text) (s : Settings) where
  -- The tables, with the objects of the object store and the counters in Redis.
  pub record Service : Type 0 where
    pub state : State
    pub counters : S

  abbrev pub with_db : Service → Db → Service
  with_db x db = record x { state = record x.state { db = db } }

  abbrev pub with_counts : Service → S × Db → Service
  with_counts x (counters, db) = record { state = record x.state { db = db }; counters = counters }

  pub data Step (x : Service) : Service → Type 0 where
    saves :
        (w : Weather) (net : World) (cs : Clients) (now : ℕ) (p : NewPost)
        → Step x (record x { state = (save_post s w net cs now p x.state).0 })
    deletes :
        (w : Weather) (net : World) (now : ℕ) (id user : Text)
        → Step x (with_db x (delete_post s w net now id user x.state.db).0)
    likes :
        (w : Weather) (net : World) (now : ℕ) (id user : Text)
        → Step x
            (with_counts x (like_post store prefix s w net now id user x.counters x.state.db).0)
    unlikes :
        (w : Weather) (net : World) (id user : Text)
        → Step x (with_counts x (unlike_post store prefix s w net id user x.counters x.state.db).0)
    shares :
        (w : Weather) (net : World) (share : ShareRow)
        → Step x (with_counts x (share_post store prefix s w net share x.counters x.state.db).0)
    cleans :
        (w : Weather) (cs : Clients) (reason : Text)
        → Step x (record x { state = (clean_round w cs reason x.state).0 })
    relays : (net : World) (now : ℕ) → Step x (with_db x (relayed s net now x.state.db))

  pub data Reach (x : Service) : Service → Type 0 where
    here : Reach x x
    next : {y z : Service} → Reach x y → Step y z → Reach x z

  Step-IsValid : {x y : Service} → Step x y → IsValid x.state.db → IsValid y.state.db
  Step-IsValid {x} (saves w net cs now p) v = save_post-IsValid s w net cs now p x.state v
  Step-IsValid {x} (deletes w net now id user) v =
      delete_post-IsValid s w net now id user x.state.db v
  Step-IsValid {x} (likes w net now id user) v =
      like_post-IsValid store prefix s w net now id user x.counters x.state.db v
  Step-IsValid {x} (unlikes w net id user) v =
      unlike_post-IsValid store prefix s w net id user x.counters x.state.db v
  Step-IsValid {x} (shares w net share) v =
      share_post-IsValid store prefix s w net share x.counters x.state.db v
  Step-IsValid {x} (cleans w cs reason) v = clean_round-IsValid w cs reason x.state v
  Step-IsValid {x} (relays net now) v = relayed-IsValid s net now x.state.db v

  -- After any sequence of saved, deleted, liked, unliked and shared posts, of rounds of the clean-up and
  -- of passes of the relay, whatever the database, the broker and the object store do meanwhile: every
  -- id has at most one post, and exactly as many post.created events in the outbox as posts and as many
  -- post.deleted events as deleted posts; every user has at most one like of a post, and no like is
  -- without a post.liked event.
  pub reach-IsValid : {x y : Service} → Reach x y → IsValid x.state.db → IsValid y.state.db
  reach-IsValid here v = v
  reach-IsValid (next r st) v = Step-IsValid st (reach-IsValid r v)
