-- ===== src/Counter.antt =====
-- shared/counter/counter.go: `Incr` and `Flush`, over the commands of Redis and the sink that the code
-- calls through its interfaces `Store` and `Sink`.
use social_ai_backend.Common.{
  ℕ, zero, suc, ◌+◌, ◌*◌, ◌-◌, ◌^◌, ◌≡◌, Bool, true, false, not, ◌&&◌, ◌||◌, Option, none, some,
  List, [], ◌∷◌, ◌++◌, ltb, leb, ◌==◌, if◌then◌else◌, Text,
}
use social_ai_backend.Common.Int.{ℤ, pos, negsuc, ◌-ℤ◌, eqb_ℤ}
pub mod Contract
pub mod Conserve
pub mod Balance
pub mod Flushing

-- Redis, with the state that it keeps. `false` and `none` stand for an error of the call.
pub record Store (S : Type 0) : Type 0 where
  pub incr_by : Text → ℤ → S → S × Bool
  pub s_add : Text → Text → S → S × Bool
  pub s_pop_n : Text → ℤ → S → S × Option (List Text)
  pub get_del : Text → S → S × Option Text

-- The durable store of the counts.
pub record Sink (D : Type 0) : Type 0 where
  pub add : Text → Text → ℤ → D → D × Bool

pub data IncrError : Type 0 where
  not_recorded unscheduled : IncrError

-- What the first error of a flush says: a failed command of Redis, a failed write whose delta was put
-- back, or one whose delta was not.
pub data FlushError : Type 0 where
  store_failed sink_failed lost : FlushError

abbrev pub colon : ℕ
colon = b':'

abbrev pub pipe : ℕ
pipe = b'|'

abbrev pub dirty_key : Text → Text
dirty_key prefix = prefix ++ b':' ∷ b'd' ∷ b'i' ∷ b'r' ∷ b't' ∷ b'y' ∷ []

unfoldable pub delta_key : Text → Text → Text → Text
delta_key prefix id field = prefix ++ colon ∷ (field ++ colon ∷ id)

unfoldable pub member : Text → Text → Text
member id field = field ++ pipe ∷ id

-- A member as its id and its field.
unfoldable pub split_member : Text → Option (Text × Text)
split_member [] = none
split_member (c ∷ m) =
    let rest : Option (Text × Text) = elim (split_member m) [
      | none ↦ none
      | some (id, field) ↦ some (id, c ∷ field)
    ] in
    if c == pipe then some (m, []) else rest

-- The digits of `strconv.ParseInt`.
unfoldable pub parse_digits : ℕ → Text → Option ℕ
parse_digits acc [] = some acc
parse_digits acc (c ∷ s) =
    let rest = parse_digits (acc * 10 + (c - b'0')) s in
    if leb b'0' c && leb c b'9' then rest else none

abbrev in_range : Bool → Option ℕ → Option ℤ
in_range minus none = none
in_range false (some n) = if ltb n (2 ^ 63) then some (pos n) else none
in_range true (some zero) = some (pos 0)
in_range true (some (suc n)) = if ltb n (2 ^ 63) then some (negsuc n) else none

-- `strconv.ParseInt(s, 10, 64)`.
unfoldable pub parse_int : Text → Option ℤ
unfolding parse_digits
parse_int [] = none
parse_int (c ∷ s) =
    if (c == b'-' || c == b'+') && not (elim s [ [] ↦ true | _ ∷ _ ↦ false ])
    then in_range (c == b'-') (parse_digits 0 s)
    else in_range false (parse_digits 0 (c ∷ s))

-- The error that is kept: the first one.
abbrev pub first {ℓ} : {E : Type ℓ} → Option E → E → Option E
first none e = some e
first (some e') e = some e'

module _ {S : Type 0} (store : Store S) (prefix : Text) where
  unfoldable pub incr : Text → Text → ℤ → S → S × Option IncrError
  incr id field n s =
      let (stored, recorded) = store.incr_by (delta_key prefix id field) n s in
      let (marked, scheduled) = store.s_add (dirty_key prefix) (member id field) stored in
      let (undone, reverted) = store.incr_by (delta_key prefix id field) (pos 0 -ℤ n) marked in
      if not recorded
      then (stored, some not_recorded)
      else if scheduled
      then (marked, none)
      else (undone, some (if reverted then not_recorded else unscheduled))

-- The stores, the number of rows written and the first error, so far.
pub record Progress (S D : Type 0) : Type 0 where
  pub redis : S
  pub rows : D
  pub written : ℕ
  pub error : Option FlushError

module _ {S D : Type 0} (store : Store S) (sink : Sink D) (prefix : Text) where
  -- The write of a delta that was taken from Redis.
  unfoldable pub apply : Text → Text → ℤ → Progress S D → Progress S D
  apply id field delta p =
      let (rows, added) = sink.add id field delta p.rows in
      let (back, failed) = incr store prefix id field delta p.redis in
      if added then record p { rows = rows; written = p.written + 1 } else record p {
        rows = rows;
        redis = back;
        error = first p.error (elim failed [ none ↦ sink_failed | some _ ↦ lost ]);
      }

  -- What follows the parsing of a delta.
  unfoldable pub apply_parsed : Text → Text → Option ℤ → Progress S D → Progress S D
  apply_parsed id field none p = p
  apply_parsed id field (some delta) p = if eqb_ℤ delta (pos 0) then p else apply id field delta p

  -- What follows GETDEL.
  unfoldable pub settle : Text → Text → Text → Option Text → Progress S D → Progress S D
  settle m id field none p = record p {
    redis = (store.s_add (dirty_key prefix) m p.redis).0;
    error = first p.error store_failed;
  }
  settle m id field (some []) p = p
  settle m id field (some (c ∷ raw)) p = apply_parsed id field (parse_int (c ∷ raw)) p

  -- One round of the loop.
  unfoldable pub flush_member : Text → Progress S D → Progress S D
  flush_member m p = elim (split_member m) [
    | none ↦ p
    | some (id, field) ↦
        let (taken, raw) = store.get_del (delta_key prefix id field) p.redis in
        settle m id field raw (record p { redis = taken })
  ]

  unfoldable pub flush_members : List Text → Progress S D → Progress S D
  flush_members [] p = p
  flush_members (m ∷ ms) p = flush_members ms (flush_member m p)

  unfoldable pub flush : ℤ → S → D → Progress S D
  flush max s d =
      let (popped, dirty) = store.s_pop_n (dirty_key prefix) max s in
      elim dirty [
        | none ↦ record { redis = popped; rows = d; written = 0; error = some store_failed }
        | some ms ↦
            flush_members ms (record { redis = popped; rows = d; written = 0; error = none })
      ]
