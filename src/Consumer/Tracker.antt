-- ===== src/Consumer/Tracker.antt =====
-- shared/consumer/tracker.go: out-of-order completions become in-order commit positions. The Go
-- methods hold the tracker's mutex throughout, so each is one function from tracker to tracker.
pub mod Watermark
pub mod Keys
pub mod History
use social_ai_backend.Common.{
  ℕ, ◌≡◌, Bool, true, false, not, ◌&&◌, List, [], ◌∷◌, ◌++◌, arith, ltb, ◌==◌, if◌then◌else◌, any,
  keep, Text, text_eq, text_lt,
}
use social_ai_backend.Common.Int.{ℤ, pos, negsuc, ltb_ℤ, eqb_ℤ, ◌-ℤ◌}
use social_ai_backend.Common.Sort.{sort}

pub record PartKey : Type 0 where
  pub topic : Text
  pub partition : ℕ

-- An offset in a topic partition. Offsets are signed: -1 stands for "nothing yet".
pub record Position : Type 0 where
  pub topic : Text
  pub partition : ℕ
  pub offset : ℤ

-- `done` is a map from offsets to true: the offsets that are keys of it.
pub record PartState : Type 0 where
  pub pending : List ℤ
  pub done : List ℤ
  pub ready : ℤ
  pub committed : ℤ

-- The map of partitions, in the order in which they were first seen.
abbrev pub Tracker : Type 0
Tracker = List (PartKey × PartState)

unfoldable pub key_eq : PartKey → PartKey → Bool
key_eq a b = text_eq a.topic b.topic && a.partition == b.partition

abbrev pub new_state : PartState
new_state = record { pending = []; done = []; ready = negsuc 0; committed = negsuc 0 }

abbrev pub new_tracker : Tracker
new_tracker = []

-- `state` followed by a change to what it returns: a missing partition is created first.
unfoldable pub modify : PartKey → (PartState → PartState) → Tracker → Tracker
unfolding key_eq
modify k f [] = (k, f new_state) ∷ []
modify k f ((j, s) ∷ t) = if key_eq k j then (j, f s) ∷ t else (j, s) ∷ modify k f t

-- What `state` returns.
unfoldable pub state : PartKey → Tracker → PartState
unfolding key_eq
state k [] = new_state
state k ((j, s) ∷ t) = if key_eq k j then s else state k t

abbrev pub push_pending : ℤ → PartState → PartState
push_pending o s = record s { pending = s.pending ++ o ∷ [] }

unfoldable pub track : PartKey → ℤ → Tracker → Tracker
track k o t = modify k (push_pending o) t

-- The loop of `Done`, over the pending offsets.
unfoldable pub advance : List ℤ → PartState → PartState
advance [] s = record s { pending = [] }
advance (o ∷ os) s =
    let rest =
      advance os
        (record s { ready = o; done = keep (λ d. not (eqb_ℤ o d)) s.done; pending = os }) in
    if any (eqb_ℤ o) s.done then rest else record s { pending = o ∷ os }

unfoldable pub finish : ℤ → PartState → PartState
unfolding advance
finish o s = advance s.pending (record s { done = o ∷ s.done })

unfoldable pub done : PartKey → ℤ → Tracker → Tracker
unfolding finish
done k o t = modify k (finish o) t

-- The loop of `Committable` over the map.
unfoldable pub collect : Tracker → Tracker × List Position
collect [] = ([], [])
collect ((k, s) ∷ t) =
    let (t', out) = collect t in
    if ltb_ℤ s.committed s.ready
    then (
      (k, record s { committed = s.ready }) ∷ t',
      record { topic = k.topic; partition = k.partition; offset = s.ready } ∷ out,
    )
    else ((k, s) ∷ t', out)

-- The comparison that `Committable` sorts by.
unfoldable pub position_less : Position → Position → Bool
position_less p q =
    if not (text_eq p.topic q.topic) then text_lt p.topic q.topic else ltb p.partition q.partition

unfoldable pub committable : Tracker → Tracker × List Position
unfolding collect
committable t = let (t', out) = collect t in (t', sort position_less out)

abbrev pub key_of : Position → PartKey
key_of p = record { topic = p.topic; partition = p.partition }

unfoldable pub lower : ℤ → PartState → PartState
lower o s = if not (ltb_ℤ s.committed o) then record s { committed = o -ℤ pos 1 } else s

unfoldable pub rewind : Position → Tracker → Tracker
unfolding lower
rewind p t = modify (key_of p) (lower p.offset) t
