-- ===== src/Examples/Outboxing.antt =====
-- Runs of the outbox and its relay on small tables, with numbers as payloads.
use social_ai_backend.Common.{
  ℕ, ◌≡◌, ◌≢◌, ◌<◌, All, refl, true, false, none, some, List, [], ◌∷◌, ◌==◌, if◌then◌else◌, arith,
  Aligned, In, here,
}
use social_ai_backend.Common.Int.{pos}
use social_ai_backend.Common.Sort.{sort, insert_sorted}
use social_ai_backend.Outbox.Table.{
  Row, Event, Record, Outbox, published, enqueue, claim, due_rows, is_due, mark_published,
  mark_failed,
}
use social_ai_backend.Outbox.Relay.{
  Settings, World, defaults, run_once, relay_loaded, relay_records, relay_record, relay_accepted,
  relay_refused, counted, fail, backoff,
}
use social_ai_backend.Outbox.Rows.{Evolves}
use social_ai_backend.Outbox.Delivery.{run_once_keeps}
use social_ai_backend.Outbox.Draining.{IsAnswering, run_once_drains}
use social_ai_backend.Outbox.Claims.{Change, claims, fails, changed, changed_all, claims_disjoint}

abbrev pub standard : Settings
standard = record {
  batch_size = 100;
  max_attempts = 0;
  base_backoff = 1000000000;
  max_backoff = 300000000000;
  lease = pos 0;
}

-- The settings of a relay of which no field was set.
standard_lem :
    defaults (record {
      batch_size = pos 0;
      max_attempts = pos 0;
      base_backoff = pos 0;
      max_backoff = pos 0;
      lease = pos 0;
    })
    ≡ standard
unfolding defaults
standard_lem = refl

abbrev event : ℕ → Event ℕ
event n = record {
  aggregate_type = [];
  aggregate_id = [];
  topic = b't' ∷ [];
  key = [];
  payload = n;
}

abbrev two_rows : List (Row ℕ)
two_rows =
    (enqueue (event 8) 0 5 (enqueue (event 7) 0 5 (record { rows = []; next_id = 1 })).0).0.rows

-- The broker refuses the first record and accepts the second, whose mark is lost.
abbrev pub shaky : World
shaky = record {
  publish = λ n. if n == 0 then some (b'x' ∷ []) else none;
  stopped_before = λ _. false;
  stopped_after = λ _. false;
  mark_fails = λ n. n == 1;
  takes_effect = λ _. false;
  clock = λ _. 20;
  load_fails = false;
}

abbrev pub sunny : World
sunny = record {
  publish = λ _. none;
  stopped_before = λ _. false;
  stopped_after = λ _. false;
  mark_fails = λ _. false;
  takes_effect = λ _. false;
  clock = λ _. 20;
  load_fails = false;
}

sunny-IsAnswering : IsAnswering sunny
sunny-IsAnswering = record {
  accepts = λ n. refl;
  runs = λ n. refl;
  marks = λ n. refl;
  loads = refl;
}

shaky_run : (run_once standard shaky 10 two_rows).0.accepted ≡ 2 ∷ []
unfolding run_once relay_loaded relay_records relay_record relay_accepted relay_refused counted fail
    backoff claim due_rows sort insert_sorted mark_published mark_failed enqueue
shaky_run = refl

run_once_keeps_example :
    Aligned
      (Evolves standard (run_once standard shaky 10 two_rows).0.accepted)
      two_rows
      (run_once standard shaky 10 two_rows).0.rows
run_once_keeps_example = run_once_keeps standard shaky 10 two_rows

run_once_drains_example :
    ((run_once standard sunny 10 two_rows).1 ≡ none)
    × Aligned
        (λ r r'. is_due 10 r ≡ true → r'.status ≡ published)
        two_rows
        (run_once standard sunny 10 two_rows).0.rows
unfolding enqueue
run_once_drains_example = run_once_drains standard sunny sunny-IsAnswering 10 two_rows (omega arith)

abbrev first_record : Record ℕ
first_record = record {
  id = 1;
  topic = b't' ∷ [];
  key = [];
  payload = 7;
  attempts = 0;
  next_attempt_at = 0;
  created_at = 5;
}

abbrev second_record : Record ℕ
second_record = record {
  id = 2;
  topic = b't' ∷ [];
  key = [];
  payload = 8;
  attempts = 0;
  next_attempt_at = 0;
  created_at = 5;
}

claimed_first : In first_record (claim (pos 0) 10 1 two_rows).1
unfolding claim due_rows sort insert_sorted enqueue
claimed_first = here

-- The first record stays leased while another relay claims the second one and reports a failure of it.
abbrev meanwhile : List (Change ℕ)
meanwhile = claims (pos 0) 11 5 ∷ fails 2 1 12 [] false ∷ []

abbrev two_in_box : Outbox ℕ
two_in_box = record { rows = two_rows; next_id = 3 }

abbrev after_first : Outbox ℕ
after_first = record two_in_box { rows = (claim (pos 0) 10 1 two_rows).0 }

claimed_second :
    In
      (record second_record { attempts = 1 })
      (claim (pos 0) 12 5 (changed_all meanwhile after_first).rows).1
unfolding changed claim due_rows sort insert_sorted enqueue mark_failed
claimed_second = here

ids_given : All (λ x. x.id < 3) two_rows
unfolding enqueue
ids_given = (omega arith, (omega arith, tt))

claims_disjoint_example : second_record.id ≢ first_record.id
claims_disjoint_example =
    claims_disjoint (pos 0) (pos 0) 10 12 1 5 two_in_box meanwhile (omega arith) ids_given
      first_record (record second_record { attempts = 1 }) claimed_first
      (tt, ((λ e. absurd (ground arith)), tt)) claimed_second
