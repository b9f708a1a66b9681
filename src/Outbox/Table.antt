-- ===== src/Outbox/Table.antt =====
-- shared/outbox/pgstore.go: the outbox table of migrations/0001_init.sql and the statements on it.
-- Times are numbers. A record's id stands for its decimal text, which the database reads back.
use social_ai_backend.Common.{
  ℕ, zero, suc, ◌+◌, ◌-◌, Bool, true, false, ◌&&◌, Option, none, some, List, [], ◌∷◌, ◌++◌, ltb,
  leb, ◌==◌, if◌then◌else◌, any, keep, map, length, take, Text,
}
use social_ai_backend.Common.Int.{ℤ, or_default}
use social_ai_backend.Common.Sort.{sort}

pub data Status : Type 0 where
  pending published dead : Status

abbrev pub is_pending : Status → Bool
is_pending pending = true
is_pending _ = false

abbrev pub is_published : Status → Bool
is_published published = true
is_published _ = false

abbrev pub is_dead : Status → Bool
is_dead dead = true
is_dead _ = false

-- A row of the table, for any type of payloads.
pub record Row (P : Type 0) : Type 0 where
  pub id : ℕ
  pub aggregate_type : Text
  pub aggregate_id : Text
  pub topic : Text
  pub key : Text
  pub payload : P
  pub created_at : ℕ
  pub status : Status
  pub attempts : ℕ
  pub next_attempt_at : ℕ
  pub last_error : Text
  pub published_at : Option ℕ

-- The table, and the number that its identity column gives next.
pub record Outbox (P : Type 0) : Type 0 where
  pub rows : List (Row P)
  pub next_id : ℕ

pub record Event (P : Type 0) : Type 0 where
  pub aggregate_type : Text
  pub aggregate_id : Text
  pub topic : Text
  pub key : Text
  pub payload : P

pub record Record (P : Type 0) : Type 0 where
  pub id : ℕ
  pub topic : Text
  pub key : Text
  pub payload : P
  pub attempts : ℕ
  pub next_attempt_at : ℕ
  pub created_at : ℕ

-- `PGStore.lease`, 2 minutes by default.
abbrev pub lease_of : ℤ → ℕ
lease_of lease = or_default lease 120000000000

abbrev pub oldest_of : List ℕ → Option ℕ
oldest_of [] = none
oldest_of (t ∷ ts) = elim (oldest_of ts) [
  | none ↦ some t
  | some u ↦ some (if ltb t u then t else u)
]

module _ {P : Type 0} where
  -- The row that `Enqueue` inserts at the time `now`.
  abbrev pub new_row : Event P → ℕ → ℕ → ℕ → Row P
  new_row ev not_before now id = record {
    id = id;
    aggregate_type = ev.aggregate_type;
    aggregate_id = ev.aggregate_id;
    topic = ev.topic;
    key = ev.key;
    payload = ev.payload;
    created_at = now;
    status = pending;
    attempts = 0;
    next_attempt_at = not_before;
    last_error = [];
    published_at = none;
  }

  unfoldable pub enqueue : Event P → ℕ → ℕ → Outbox P → Outbox P × Record P
  enqueue ev not_before now box = (
    record {
      rows = box.rows ++ new_row ev not_before now box.next_id ∷ [];
      next_id = box.next_id + 1;
    },
    record {
      id = box.next_id;
      topic = ev.topic;
      key = ev.key;
      payload = ev.payload;
      attempts = 0;
      next_attempt_at = not_before;
      created_at = now;
    },
  )

  -- WHERE status = 'pending' AND next_attempt_at <= $1
  abbrev pub is_due : ℕ → Row P → Bool
  is_due now r = is_pending r.status && leb r.next_attempt_at now

  abbrev pub older : Row P → Row P → Bool
  older r r' = ltb r.id r'.id

  -- The subquery of `Pending`: ORDER BY id LIMIT $3.
  unfoldable pub due_rows : ℕ → ℕ → List (Row P) → List (Row P)
  due_rows now limit rows = take limit (sort older (keep (is_due now) rows))

  abbrev pub has_id : ℕ → Row P → Bool
  has_id id r = id == r.id

  abbrev pub claim_row : List (Row P) → ℕ → Row P → Row P
  claim_row due until r =
      if any (λ d. has_id d.id r) due then record r { next_attempt_at = until } else r

  abbrev pub record_of : Row P → Record P
  record_of r = record {
    id = r.id;
    topic = r.topic;
    key = r.key;
    payload = r.payload;
    attempts = r.attempts;
    next_attempt_at = 0;
    created_at = r.created_at;
  }

  -- `Pending`: the claimed rows, oldest first, and the table with their lease.
  unfoldable pub claim : ℤ → ℕ → ℕ → List (Row P) → List (Row P) × List (Record P)
  unfolding due_rows
  claim lease now limit rows =
      let due = due_rows now limit rows in
      (
        map (claim_row due (now + lease_of lease)) rows,
        map record_of (sort older (keep (λ r. any (λ d. has_id d.id r) due) rows)),
      )

  abbrev pub publish_row : ℕ → ℕ → Row P → Row P
  publish_row id now r =
      if has_id id r && is_pending r.status
      then record r { status = published; published_at = some now; last_error = [] }
      else r

  unfoldable pub mark_published : ℕ → ℕ → List (Row P) → List (Row P)
  mark_published id now rows = map (publish_row id now) rows

  abbrev pub fail_row : ℕ → ℕ → ℕ → Text → Bool → Row P → Row P
  fail_row id attempts next last_err is_dead r =
      if has_id id r && is_pending r.status
      then record r {
        attempts = attempts;
        next_attempt_at = next;
        last_error = last_err;
        status = if is_dead then dead else pending;
      }
      else r

  unfoldable pub mark_failed : ℕ → ℕ → ℕ → Text → Bool → List (Row P) → List (Row P)
  mark_failed id attempts next last_err is_dead rows =
      map (fail_row id attempts next last_err is_dead) rows

  -- WHERE status = 'published' AND published_at < now() - retention
  abbrev pub is_prunable : ℕ → ℕ → Row P → Bool
  is_prunable now retention r =
      is_published r.status
      && elim r.published_at [ none ↦ false | some at ↦ ltb (at + retention) now ]

  -- `Prune`: at most `batch` prunable rows go; the statement does not say which, here the first ones.
  unfoldable pub prune : ℕ → ℕ → ℕ → List (Row P) → List (Row P) × ℕ
  prune now retention batch [] = ([], 0)
  prune now retention zero (r ∷ rows) = (r ∷ rows, 0)
  prune now retention (suc batch) (r ∷ rows) =
      let gone = prune now retention batch rows in
      let stays = prune now retention (suc batch) rows in
      if is_prunable now retention r then (gone.0, suc gone.1) else (r ∷ stays.0, stays.1)

  -- `Backlog`: the numbers of pending and of dead rows, and the age of the oldest pending one.
  unfoldable pub backlog : ℕ → List (Row P) → ℕ × ℕ × ℕ
  backlog now rows = (
    length (keep (λ r. is_pending r.status) rows),
    length (keep (λ r. is_dead r.status) rows),
    elim (oldest_of (map (λ r. r.created_at) (keep (λ r. is_pending r.status) rows))) [
      | none ↦ 0
      | some t ↦ now - t
    ],
  )
