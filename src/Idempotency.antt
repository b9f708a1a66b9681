-- ===== src/Idempotency.antt =====
-- shared/idempotency/idempotency.go: the claims and the stored responses of keyed requests, over the
-- commands of Redis that it calls through its interface `KV`. A JSON text is made and read by
-- parameters, and a fingerprint is an argument.
use social_ai_backend.Common.{
  ℕ, Bool, true, false, not, ◌&&◌, Option, none, some, List, [], ◌∷◌, ◌++◌, if◌then◌else◌, Text,
  text_eq, Attempt, ok, err,
}
use social_ai_backend.Common.Int.{ℤ, or_default}
pub mod Claims

-- Redis, with the state that it keeps. `none` and `false` stand for an error of the call; for `get`,
-- also for a key that is not there.
pub record Kv (S : Type 0) : Type 0 where
  pub set_nx : Text → Text → ℕ → S → S × Option Bool
  pub get : Text → S → Option Text
  pub set : Text → Text → ℕ → S → S × Bool
  pub delete : Text → S → S × Bool

pub record Response : Type 0 where
  pub status : ℕ
  pub body : Text

-- The texts "running" and "done", and any other.
pub data Phase : Type 0 where
  running done other : Phase

abbrev pub is_done : Phase → Bool
is_done done = true
is_done _ = false

pub record Entry : Type 0 where
  pub phase : Phase
  pub fingerprint : Text
  pub response : Option Response

-- `ErrInProgress`, `ErrKeyReused`, the failure of the claim and an entry that cannot be read.
pub data IdempotencyError : Type 0 where
  in_progress key_reused claim_failed corrupt_entry : IdempotencyError

-- The fields `LockTTL` and `ResultTTL`, in nanoseconds: 2 minutes and 24 hours by default.
pub record Ttl : Type 0 where
  pub lock_ttl : ℤ
  pub result_ttl : ℤ

unfoldable pub ttl : Ttl → ℕ × ℕ
ttl t = (or_default t.lock_ttl 120000000000, or_default t.result_ttl 86400000000000)

abbrev pub redis_key : Text → Text → Text → Text
redis_key scope user key = b'i' ∷ b'd' ∷ b'e' ∷ b'm' ∷ b':' ∷ (scope ++ b':' ∷ (user ++ b':' ∷ key))

abbrev pub claim_of : Text → Entry
claim_of fingerprint = record { phase = running; fingerprint = fingerprint; response = none }

abbrev pub result_of : Text → Response → Entry
result_of fingerprint resp = record {
  phase = done;
  fingerprint = fingerprint;
  response = some resp;
}

-- What an entry means for a request.
unfoldable pub answer_of : Text → Entry → Attempt IdempotencyError (Option Response)
answer_of fingerprint e =
    if not (text_eq e.fingerprint fingerprint) then err key_reused else elim e.response [
      | none ↦ err in_progress
      | some resp ↦ if is_done e.phase then ok (some resp) else err in_progress
    ]

-- `withIdempotency` of services/post/handler/post.go, after `Begin`: whether it runs the handler. An error
-- that is neither `ErrInProgress` nor `ErrKeyReused` does not keep it from that.
unfoldable pub runs_handler : Attempt IdempotencyError (Option Response) → Bool
runs_handler (err in_progress) = false
runs_handler (err key_reused) = false
runs_handler (err claim_failed) = true
runs_handler (err corrupt_entry) = true
runs_handler (ok (some resp)) = false
runs_handler (ok none) = true

module _ {S : Type 0} (kv : Kv S) (encode : Entry → Text) (decode : Text → Option Entry)
    (t : Ttl) where
  -- What follows `Get`.
  unfoldable pub read_entry : Text → Option Text → Attempt IdempotencyError (Option Response)
  unfolding answer_of
  read_entry fingerprint none = err in_progress
  read_entry fingerprint (some raw) = elim (decode raw) [
    | none ↦ err corrupt_entry
    | some e ↦ answer_of fingerprint e
  ]

  -- What follows `SetNX`.
  unfoldable pub claimed :
      Text → Text → S × Option Bool → S × Attempt IdempotencyError (Option Response)
  unfolding read_entry
  claimed k fingerprint (s, none) = (s, err claim_failed)
  claimed k fingerprint (s, some true) = (s, ok none)
  claimed k fingerprint (s, some false) = (s, read_entry fingerprint (kv.get k s))

  -- `Begin`: `ok none` lets the caller run the handler, `ok (some r)` replays r.
  unfoldable pub begin :
      Text → Text → Text → Text → S → S × Attempt IdempotencyError (Option Response)
  unfolding claimed
  begin scope user key fingerprint s =
      claimed (redis_key scope user key) fingerprint
        (kv.set_nx (redis_key scope user key) (encode (claim_of fingerprint)) (ttl t).0 s)

  -- `Complete`, and whether it returned nil.
  unfoldable pub complete : Text → Text → Text → Text → Response → S → S × Bool
  complete scope user key fingerprint resp s =
      kv.set (redis_key scope user key) (encode (result_of fingerprint resp)) (ttl t).1 s

  -- `Release`, and whether it returned nil.
  unfoldable pub release : Text → Text → Text → S → S × Bool
  release scope user key s = kv.delete (redis_key scope user key) s
