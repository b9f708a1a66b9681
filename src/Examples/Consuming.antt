-- ===== src/Examples/Consuming.antt =====
-- Runs of the event-processing loop and its tracker.
use social_ai_backend.Common.{
  ◌≡◌, refl, Bool, true, false, List, [], ◌∷◌, none, some, arith, In, here, any, text_eq, ltb,
  if◌then◌else◌,
}
use social_ai_backend.Common.Int.{pos, eqb_ℤ}
use social_ai_backend.Common.Sort.{sort, insert_sorted}
use social_ai_backend.Consumer.Tracker.{
  PartKey, Position, committable, rewind, modify, key_eq, state,
}
use social_ai_backend.Consumer.Tracker.History.{
  Call, tracks, dones, replay, finished_of, ready-replay, committable_safe, rewind_retries,
  IsProper,
}
use social_ai_backend.Consumer.Config.{Config, Message, with_defaults}
use social_ai_backend.Consumer.Backoff.{backoff, backoff_lem}
use social_ai_backend.Consumer.Process.{Environment, Effect, verdict, process}
use social_ai_backend.Consumer.Process.Outcome.{Explained, process_ends}

abbrev part : PartKey
part = record { topic = 1 ∷ []; partition = 0 }

-- Offsets 5, 6 and 8 are tracked; 6 and 5 finish, in this order. The newest call stands first.
abbrev out_of_order : List Call
out_of_order =
    dones part (pos 5)
    ∷ dones part (pos 6)
    ∷ tracks part (pos 8)
    ∷ tracks part (pos 6)
    ∷ tracks part (pos 5)
    ∷ []

abbrev at_six : Position
at_six = record { topic = 1 ∷ []; partition = 0; offset = pos 6 }

out_of_order_run : (committable (replay out_of_order)).1 ≡ at_six ∷ []
unfolding committable replay modify key_eq text_eq sort insert_sorted
out_of_order_run = refl

out_of_order-IsProper : IsProper part out_of_order
unfolding key_eq text_eq
out_of_order-IsProper = ground arith

ready-replay_example : (state part (replay out_of_order)).ready ≡ pos 6
unfolding key_eq text_eq
ready-replay_example = ready-replay part out_of_order out_of_order-IsProper

committable_safe_example : any (eqb_ℤ (pos 5)) (finished_of part out_of_order) ≡ true
unfolding committable replay modify key_eq text_eq sort insert_sorted
committable_safe_example =
    committable_safe out_of_order at_six (pos 5) out_of_order-IsProper here here (omega arith)

rewind_retries_example :
    In at_six (committable (rewind at_six (committable (replay out_of_order)).0)).1
unfolding committable replay modify key_eq text_eq sort insert_sorted
rewind_retries_example = rewind_retries out_of_order at_six here

abbrev unset : Config
unset = record {
  workers = pos 0;
  queue_size = pos 0;
  max_attempts = pos 0;
  base_backoff = pos 0;
  max_backoff = pos 0;
  dlq_topic = 9 ∷ [];
  commit_interval = pos 0;
}

backoff_lem_example : backoff (with_defaults unset) 9 ≡ 10000000000
unfolding with_defaults
backoff_lem_example = backoff_lem (with_defaults unset) 9 (omega arith) (omega arith)

-- A handler that always fails, and a publisher that accepts at its second attempt.
abbrev failing : Environment
failing = record {
  cancelled = λ _. false;
  handle = λ _. some (4 ∷ []);
  stopped = λ _. false;
  publish = λ n. if ltb n 2 then some (5 ∷ []) else none;
  now = 100;
}

abbrev message : Message
message = record { topic = 1 ∷ []; partition = 0; offset = pos 5; key = 7 ∷ []; value = 8 ∷ [] }

process_ends_example :
    (b : Bool) × (log : List Effect) × (process 8 failing (with_defaults unset) message
      ≡ some (verdict b, log))
    × Explained failing (with_defaults unset) message b log
unfolding with_defaults
process_ends_example =
    process_ends failing (with_defaults unset) message 2 refl (omega arith) (omega arith) refl
