-- ===== src/Examples/Running.antt =====
-- A run of the event loop over two messages of one partition.
use social_ai_backend.Common.{
  ℕ, ◌≤◌, ◌≡◌, refl, true, none, some, [], ◌∷◌, ◌++◌, ◌==◌, arith, keep, length, In, here, Text,
  text_eq,
}
use social_ai_backend.Common.Int.{pos}
use social_ai_backend.Common.Sort.{sort, insert_sorted}
use social_ai_backend.Consumer.Config.{Message, Settings}
use social_ai_backend.Consumer.Tracker.{
  Position, key_eq, key_of, committable, track, done, modify, advance,
}
use social_ai_backend.Consumer.Run.{
  Loop, Reach, start, next, initial, fetches, sends, takes, finishes, part_of, worker_of, route,
  put_at,
}
use social_ai_backend.Consumer.Run.Order.{run_in_order}
use social_ai_backend.Consumer.Run.Commits.{run_at_least_once}

abbrev lone_worker : Settings
lone_worker = record {
  workers = 1;
  queue_size = 2;
  max_attempts = 1;
  base_backoff = 1;
  max_backoff = 1;
  dlq_topic = [];
  commit_interval = 1;
}

abbrev by_length : Text → ℕ
by_length = length

abbrev first_message : Message
first_message = record { topic = 1 ∷ []; partition = 0; offset = pos 0; key = []; value = [] }

abbrev handed : Position
handed = record { topic = 1 ∷ []; partition = 0; offset = pos 0 }

abbrev fetched_one : Loop
fetched_one = record initial {
  tracker = track (part_of first_message) (pos 0) initial.tracker;
  fetched = first_message ∷ [];
  in_hand = first_message ∷ [];
}

abbrev sent_one : Loop
sent_one = record fetched_one {
  sent = first_message ∷ [];
  in_hand = [];
  queues = put_at (worker_of by_length lone_worker first_message) (first_message ∷ []) (λ _. []);
}

abbrev taken_one : Loop
taken_one = record sent_one {
  queues = put_at 0 [] sent_one.queues;
  started = put_at 0 (first_message ∷ []) (λ _. []);
  working = put_at 0 (some first_message) (λ _. none);
}

abbrev handled : Loop
handled = record taken_one {
  tracker = done (part_of first_message) (pos 0) taken_one.tracker;
  working = put_at 0 none taken_one.working;
  finished = first_message ∷ [];
}

handled-Reach : Reach by_length lone_worker handled
unfolding route
handled-Reach =
    next
      (next
        (next (next start (fetches first_message refl (omega arith, tt)))
          (sends first_message refl (omega arith)))
        (takes 0 first_message [] refl refl))
      (finishes 0 first_message refl)

run_in_order_example :
    ((i : ℕ)
      → handled.started i ++ handled.queues i
        ≡ keep (λ m. worker_of by_length lone_worker m == i) handled.sent)
    × (handled.fetched ≡ handled.sent ++ handled.in_hand)
    × ((i : ℕ) → length (handled.queues i) ≤ 2)
run_in_order_example = run_in_order by_length lone_worker handled-Reach

handed_on : In handed (committable handled.tracker).1
unfolding track done committable modify advance key_eq text_eq sort insert_sorted
handed_on = here

same_part : key_eq (key_of handed) (part_of first_message) ≡ true
unfolding key_eq text_eq
same_part = refl

run_at_least_once_example :
    (n : Message) × In n handled.finished
    × (key_eq (key_of handed) (part_of n) ≡ true)
    × (n.offset ≡ pos 0)
run_at_least_once_example =
    run_at_least_once by_length lone_worker handled-Reach handed first_message handed_on here
      same_part (omega arith)
