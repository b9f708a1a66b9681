-- ===== src/Consumer/Run.antt =====
-- shared/consumer/consumer.go: `Run`, its fetch loop, its workers and its committer, as steps in any order.
-- The hash of fnv.New32a and the source are not modelled: the hash is a parameter, and the source delivers
-- the offsets of each partition in increasing order.
pub mod Order
pub mod Traced
pub mod Commits
use social_ai_backend.Common.{
  ℕ, ◌+◌, ◌%◌, ◌^◌, ◌≤◌, ◌<◌, ◌≡◌, Bool, true, false, Option, none, some, List, [], ◌∷◌, ◌++◌, leb,
  ◌==◌, if◌then◌else◌, keep, length, All, In, Text,
}
use social_ai_backend.Common.Int.{ℤ, pos, ◌<ℤ◌, ◌≤ℤ◌}
use social_ai_backend.Consumer.Config.{Message, Settings}
use social_ai_backend.Consumer.Tracker.{
  PartKey, Position, Tracker, key_eq, new_tracker, track, done, committable, rewind,
}

-- The worker that a key is routed to.
unfoldable pub route : (Text → ℕ) → Text → ℕ → ℕ
route hash key n = if leb n 1 then 0 else hash key % 2 ^ 32 % n

abbrev pub part_of : Message → PartKey
part_of m = record { topic = m.topic; partition = m.partition }

-- `commit`, where `refuses p` says that the source returns an error for the position p.
abbrev pub rewind_all : List Position → Tracker → Tracker
rewind_all [] t = t
rewind_all (p ∷ ps) t = rewind_all ps (rewind p t)

unfoldable pub commit : (Position → Bool) → Tracker → Tracker
commit refuses t = let (t', out) = committable t in rewind_all (keep refuses out) t'

-- The local variables. `fetched` and `sent` are the messages that the loop got from the source and put into
-- queues, oldest first; `in_hand` is the one it got and did not put. `started` are the messages that a
-- worker took from its queue, oldest first, `working` the one it processes, and `finished` those that
-- `process` returned true for.
pub record Loop : Type 0 where
  pub tracker : Tracker
  pub fetched : List Message
  pub sent : List Message
  pub in_hand : List Message
  pub queues : ℕ → List Message
  pub started : ℕ → List Message
  pub working : ℕ → Option Message
  pub finished : List Message
  pub cancelled : Bool

abbrev pub initial : Loop
initial = record {
  tracker = new_tracker;
  fetched = [];
  sent = [];
  in_hand = [];
  queues = λ _. [];
  started = λ _. [];
  working = λ _. none;
  finished = [];
  cancelled = false;
}

abbrev pub put_at {ℓ} : {A : Type ℓ} → ℕ → A → (ℕ → A) → ℕ → A
put_at i a f j = if i == j then a else f j

module _ (hash : Text → ℕ) (cfg : Settings) where
  abbrev pub worker_of : Message → ℕ
  worker_of m = route hash m.key cfg.workers

  -- What the source promises of the next message.
  abbrev pub Follows : Message → List Message → Type 0
  Follows m ms =
      (pos 0 ≤ℤ m.offset)
      × All (λ n. key_eq (part_of m) (part_of n) ≡ true → n.offset <ℤ m.offset) ms

  pub data Step (x : Loop) : Loop → Type 0 where
    -- A fetch may still succeed while the context is being cancelled.
    fetches :
        (m : Message)
        → x.in_hand ≡ []
        → Follows m x.fetched
        → Step x (record x {
          tracker = track (part_of m) m.offset x.tracker;
          fetched = x.fetched ++ m ∷ [];
          in_hand = m ∷ [];
        })
    -- A full queue makes the loop wait. After a cancellation `select` may still choose the send.
    sends :
        (m : Message)
        → x.in_hand ≡ m ∷ []
        → length (x.queues (worker_of m)) < cfg.queue_size
        → Step x (record x {
          sent = x.sent ++ m ∷ [];
          in_hand = [];
          queues = put_at (worker_of m) (x.queues (worker_of m) ++ m ∷ []) x.queues;
        })
    takes :
        (i : ℕ) (m : Message) (ms : List Message)
        → x.queues i ≡ m ∷ ms
        → x.working i ≡ none
        → Step x (record x {
          queues = put_at i ms x.queues;
          started = put_at i (x.started i ++ m ∷ []) x.started;
          working = put_at i (some m) x.working;
        })
    -- `process` returned true.
    finishes :
        (i : ℕ) (m : Message)
        → x.working i ≡ some m
        → Step x (record x {
          tracker = done (part_of m) m.offset x.tracker;
          working = put_at i none x.working;
          finished = m ∷ x.finished;
        })
    -- `process` returned false, which a cancellation makes it do.
    abandons :
        (i : ℕ) (m : Message)
        → x.working i ≡ some m
        → x.cancelled ≡ true
        → Step x (record x { working = put_at i none x.working })
    -- A tick of the committer, or the last commit.
    commits : (refuses : Position → Bool) → Step x (record x { tracker = commit refuses x.tracker })
    cancels : Step x (record x { cancelled = true })

  pub data Reach : Loop → Type 0 where
    start : Reach initial
    next : {x y : Loop} → Reach x → Step x y → Reach y
