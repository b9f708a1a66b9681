-- ===== src/Counter/Flushing.antt =====
-- `Flush` of shared/counter/counter.go as a whole.
use social_ai_backend.Common.{◌≡◌, ◌⊎◌, some, List, ◌∷◌, Text}
use social_ai_backend.Common.Int.{ℤ}
use social_ai_backend.Counter.{Store, Sink, FlushError, split_member, Progress, flush_member}
use social_ai_backend.Counter.Contract.{StoreLaws, SinkLaws}
use social_ai_backend.Counter.Balance.{IsField, total, Trouble}

-- An error is kept.
abbrev HasError : {S D : Type 0} → Progress S D → Type 0
HasError p = (e : FlushError) × (p.error ≡ some e)

-- A member of the set of pending counters names a field.
abbrev pub IsProper : Text → Type 0
IsProper m = (i f : Text) → split_member m ≡ some (i, f) → IsField f

module _ {S D : Type 0} (store : Store S) (sink : Sink D) (laws : StoreLaws store)
    (counts : SinkLaws sink) (prefix id field : Text) (named : IsField field) where
  abbrev Troubled : Progress S D → Type 0
  Troubled = Trouble store sink laws counts prefix id field named

  -- Among the rounds for the members, from p on, one for this counter met trouble.
  pub data Disturbed : Progress S D → List Text → Type 0 where
    now :
        (p : Progress S D) (m : Text) (ms : List Text)
        → split_member m ≡ some (id, field)
        → Troubled p
        → Disturbed p (m ∷ ms)
    later :
        (p : Progress S D) (m : Text) (ms : List Text)
        → Disturbed (flush_member store sink prefix m p) ms
        → Disturbed p (m ∷ ms)

  abbrev sum_of : Progress S D → ℤ
  sum_of = total store sink laws counts prefix id field named

  abbrev Kept : Progress S D → List Text → Progress S D → Type 0
  Kept p ms q = (sum_of q ≡ sum_of p) ⊎ (HasError q × Disturbed p ms)
