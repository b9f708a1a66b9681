-- ===== src/Outbox/Relay.antt =====
-- shared/outbox/outbox.go: the relay from the table to the broker. The timeouts of a publication are
-- part of what the broker answers; the optional metrics are left out.
use social_ai_backend.Common.{
  ℕ, ◌+◌, ◌-◌, ◌*◌, ◌^◌, Bool, true, false, ◌&&◌, Option, none, some, List, [], ◌∷◌, ◌++◌, ltb, leb,
  if◌then◌else◌, Text,
}
use social_ai_backend.Common.Int.{ℤ, pos, negsuc, or_default}
use social_ai_backend.Outbox.Table.{Row, Record, claim, mark_published, mark_failed}

-- The fields of `Relay` that a pass reads.
pub record Config : Type 0 where
  pub batch_size : ℤ
  pub max_attempts : ℤ
  pub base_backoff : ℤ
  pub max_backoff : ℤ
  pub lease : ℤ

-- The fields after `defaults`, in nanoseconds; `max_attempts` is 0 where nothing is ever parked.
pub record Settings : Type 0 where
  pub batch_size : ℕ
  pub max_attempts : ℕ
  pub base_backoff : ℕ
  pub max_backoff : ℕ
  pub lease : ℤ

abbrev pub positive_part : ℤ → ℕ
positive_part (pos n) = n
positive_part (negsuc n) = 0

unfoldable pub defaults : Config → Settings
defaults c = record {
  batch_size = or_default c.batch_size 100;
  max_attempts = positive_part c.max_attempts;
  base_backoff = or_default c.base_backoff 1000000000;
  max_backoff = or_default c.max_backoff 300000000000;
  lease = c.lease;
}

-- `Backoff`, whose floating-point product is exact for a base below 2 ^ 53 nanoseconds: it scales it by
-- a power of two. The attempts are counted from 1.
unfoldable pub backoff : Settings → ℕ → ℕ
backoff s attempts =
    let n = if ltb attempts 1 then 1 else attempts in
    if ltb s.max_backoff (s.base_backoff * 2 ^ (n - 1))
    then s.max_backoff
    else s.base_backoff * 2 ^ (n - 1)

-- What a pass meets: the answers of the broker (`none` accepts) and of the table, the clock, and the
-- end of the context, each by the number of the record in the batch. `takes_effect` says whether an
-- update whose call returned an error was made.
pub record World : Type 0 where
  pub publish : ℕ → Option Text
  pub stopped_before : ℕ → Bool
  pub stopped_after : ℕ → Bool
  pub mark_fails : ℕ → Bool
  pub takes_effect : ℕ → Bool
  pub clock : ℕ → ℕ
  pub load_fails : Bool

pub data RelayError : Type 0 where
  load_failed mark_failed_error stopped : RelayError

-- The table, the ids that the broker accepted, and `Result`.
pub record Pass (P : Type 0) : Type 0 where
  pub rows : List (Row P)
  pub accepted : List ℕ
  pub published : ℕ
  pub failed : ℕ
  pub dead : ℕ

-- The record has used up its attempts.
abbrev pub gives_up : Settings → ℕ → Bool
gives_up s attempts = ltb 0 s.max_attempts && leb s.max_attempts attempts

module _ {P : Type 0} (s : Settings) (w : World) where
  -- An update of the table, and whether its call succeeded.
  abbrev pub updated : ℕ → (List (Row P) → List (Row P)) → List (Row P) → List (Row P) × Bool
  updated n f rows =
      if w.mark_fails n
      then ((if w.takes_effect n then f rows else rows), false)
      else (f rows, true)

  -- `fail`, and whether it returned `errPublishFailed`.
  unfoldable pub fail : ℕ → Record P → Text → List (Row P) → List (Row P) × Bool
  fail n r reason = updated n (
      mark_failed r.id (r.attempts + 1) (w.clock n + backoff s (r.attempts + 1)) reason
        (gives_up s (r.attempts + 1)))

  -- A record that the broker accepted.
  unfoldable pub relay_accepted : ℕ → Record P → Pass P → Pass P × Option RelayError
  relay_accepted n r p =
      let (rows, marked) = updated n (mark_published r.id (w.clock n)) p.rows in
      let seen = p.accepted ++ r.id ∷ [] in
      if marked
      then (record p { rows = rows; accepted = seen; published = p.published + 1 }, none)
      else (record p { rows = rows; accepted = seen }, some mark_failed_error)

  -- The end of a round with a refused record: was the table updated, and is the record parked?
  unfoldable pub counted : Bool → Bool → List (Row P) → Pass P → Pass P × Option RelayError
  counted false parked rows p = (record p { rows = rows }, some mark_failed_error)
  counted true true rows p = (record p { rows = rows; dead = p.dead + 1 }, none)
  counted true false rows p = (record p { rows = rows; failed = p.failed + 1 }, none)

  -- A record that it did not accept.
  unfoldable pub relay_refused : ℕ → Record P → Text → Pass P → Pass P × Option RelayError
  unfolding fail counted
  relay_refused n r reason p =
      let (rows, marked) = fail n r reason p.rows in
      if w.stopped_after n
      then (p, some stopped)
      else counted marked (gives_up s (r.attempts + 1)) rows p

  -- One round of the loop of `RunOnce`.
  unfoldable pub relay_record : ℕ → Record P → Pass P → Pass P × Option RelayError
  unfolding relay_accepted relay_refused
  relay_record n r p = if w.stopped_before n then (p, some stopped) else elim (w.publish n) [
    | none ↦ relay_accepted n r p
    | some reason ↦ relay_refused n r reason p
  ]

  unfoldable pub relay_records : ℕ → List (Record P) → Pass P → Pass P × Option RelayError
  unfolding relay_record
  relay_records n [] p = (p, none)
  relay_records n (r ∷ rs) p = elim (relay_record n r p).1 [
    | some e ↦ ((relay_record n r p).0, some e)
    | none ↦ relay_records (n + 1) rs (relay_record n r p).0
  ]

  abbrev pub start : List (Row P) → Pass P
  start rows = record { rows = rows; accepted = []; published = 0; failed = 0; dead = 0 }

  -- A batch after the claim, of which the call failed or not.
  unfoldable pub relay_loaded :
      Bool → List (Row P) → List (Row P) × List (Record P) → Pass P × Option RelayError
  unfolding relay_records
  relay_loaded true rows (claimed, due) =
      (start (if w.takes_effect 0 then claimed else rows), some load_failed)
  relay_loaded false rows (claimed, due) = relay_records 0 due (start claimed)

  unfoldable pub run_once : ℕ → List (Row P) → Pass P × Option RelayError
  unfolding relay_loaded
  run_once now rows = relay_loaded w.load_fails rows (claim s.lease now s.batch_size rows)

  -- `PublishNow`, and whether it returned nil.
  unfoldable pub publish_now : Record P → Pass P → Pass P × Bool
  unfolding fail
  publish_now r p = elim (w.publish 0) [
    | none ↦
        let (rows, marked) = updated 0 (mark_published r.id (w.clock 0)) p.rows in
        (record p { rows = rows; accepted = p.accepted ++ r.id ∷ [] }, marked)
    | some reason ↦
        if w.stopped_after 0
        then (p, false)
        else (record p { rows = (fail 0 r reason p.rows).0 }, false)
  ]
