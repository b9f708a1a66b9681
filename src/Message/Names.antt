-- ===== src/Message/Names.antt =====
-- services/message/service/message.go: the ids of conversations and messages.
use social_ai_backend.Common.{
  ℕ, zero, suc, ◌+◌, ◌/◌, ◌%◌, ◌≡◌, refl, sym, ap, ◌∙◌, ◌⊎◌, inl, inr, false, Option, none, some,
  List, [], ◌∷◌, ◌++◌, arith, ltb, ◌==◌, if◌then◌else◌, Bool-cases, any, Text, text_eq, text_lt,
  text_lt_asymm, text_lt_total, text_eq→eq, text_eq_refl,
}

abbrev pub colon : ℕ
colon = b':'

abbrev pub prefix : Text
prefix = b'd' ∷ b'm' ∷ b':' ∷ []

-- The id of the direct conversation between two users.
unfoldable pub conversation_id : Text → Text → Text
conversation_id a b = if text_lt b a then prefix ++ (b ++ colon ∷ a) else prefix ++ (a ++ colon ∷ b)

-- `strconv.FormatInt(n, 10)` of a number that is not negative, before the digits `acc`. A number has
-- at most as many digits as it has units, so n + 1 rounds are enough.
unfoldable pub decimal_from : ℕ → ℕ → Text → Text
decimal_from zero n acc = acc
decimal_from (suc rounds) n acc =
    let rest = decimal_from rounds (n / 10) ((b'0' + n % 10) ∷ acc) in
    if ltb n 10 then (b'0' + n) ∷ acc else rest

unfoldable pub message_id : Text → ℕ → Text
unfolding decimal_from
message_id conversation seq = conversation ++ colon ∷ decimal_from (suc seq) seq []

strip : Text → Text → Option Text
strip [] s = some s
strip (p ∷ ps) [] = none
strip (p ∷ ps) (c ∷ s) = let rest = strip ps s in if p == c then rest else none

-- `strings.TrimPrefix`.
unfoldable pub trim_prefix : Text → Text → Text
unfolding strip
trim_prefix s p = elim (strip p s) [ none ↦ s | some rest ↦ rest ]

-- `strings.Split` by one byte: the first part and the others.
unfoldable pub split_first : ℕ → Text → Text × List Text
split_first c [] = ([], [])
split_first c (x ∷ s) = let (h, t) = split_first c s in if x == c then ([], h ∷ t) else (x ∷ h, t)

unfoldable pub split : Text → ℕ → List Text
unfolding split_first
split s c = let (h, t) = split_first c s in h ∷ t

abbrev pub other_of : List Text → Text → Text
other_of (p ∷ q ∷ []) me = if text_eq p me then q else p
other_of _ me = []

-- The member of a direct conversation who is not `me`.
unfoldable pub other_participant : Text → Text → Text
other_participant conversation me = other_of (split (trim_prefix conversation prefix) colon) me

-- A user id: [a-z0-9_], so in particular without a colon.
abbrev pub HasNoColon : Text → Type 0
HasNoColon a = any (λ c. c == colon) a ≡ false

split_first-part :
    (a b : Text)
    → HasNoColon a
    → split_first colon (a ++ colon ∷ b) ≡ (a, (split_first colon b).0 ∷ (split_first colon b).1)
unfolding split_first
split_first-part [] b h = refl
split_first-part (x ∷ a) b h = elim (Bool-cases (x == colon)) [
  | inl e ↦ ground (arith, h, e)
  | inr e ↦ rw (split_first-part a b (rw e at h), e) refl
]

split_first-last : (a : Text) → HasNoColon a → split_first colon a ≡ (a, [])
unfolding split_first
split_first-last [] h = refl
split_first-last (x ∷ a) h = elim (Bool-cases (x == colon)) [
  | inl e ↦ ground (arith, h, e)
  | inr e ↦ rw (split_first-last a (rw e at h), e) refl
]

-- The two parts of a conversation's id, in the order in which it holds them.
parts_of :
    (a b : Text)
    → HasNoColon a
    → HasNoColon b
    → split (trim_prefix (prefix ++ (a ++ colon ∷ b)) prefix) colon ≡ a ∷ b ∷ []
unfolding split trim_prefix
parts_of a b ha hb = rw (split_first-part a b ha, split_first-last b hb) refl

-- The id of the conversation between two users is the same whoever asks.
pub conversation_id_comm : (a b : Text) → conversation_id a b ≡ conversation_id b a
unfolding conversation_id
conversation_id_comm a b = elim (Bool-cases (text_lt b a)) [
  | inl e ↦ rw (e, text_lt_asymm b a e) refl
  | inr e ↦ elim (Bool-cases (text_lt a b)) [
    | inl f ↦ rw (e, f) refl
    | inr f ↦ rw (text_lt_total a b f e) refl
  ]
]

parts-conversation_id :
    (a b : Text)
    → HasNoColon a
    → HasNoColon b
    → split (trim_prefix (conversation_id a b) prefix) colon
      ≡ (if text_lt b a then b ∷ a ∷ [] else a ∷ b ∷ [])
unfolding conversation_id
parts-conversation_id a b ha hb = elim (Bool-cases (text_lt b a)) [
  | inl e ↦ rw e (parts_of b a hb ha)
  | inr e ↦ rw e (parts_of a b ha hb)
]

-- For user ids without a colon, `otherParticipant` recovers from the id of the conversation between
-- two users the one who is not `me`, on either side.
pub other_participant-conversation_id :
    (a b : Text)
    → HasNoColon a
    → HasNoColon b
    → (other_participant (conversation_id a b) a ≡ b)
      × (other_participant (conversation_id a b) b ≡ a)
unfolding other_participant
other_participant-conversation_id a b ha hb = (
  rw (parts-conversation_id a b ha hb) (ground (arith, text_eq→eq b a, text_eq_refl a)),
  rw (parts-conversation_id a b ha hb) (ground (arith, text_eq→eq a b, text_eq_refl b)),
)

-- Two pairs of users without a colon in their ids share a conversation only if they are the same
-- two users.
pub conversation_id_inj :
    (a b c d : Text)
    → HasNoColon a
    → HasNoColon b
    → HasNoColon c
    → HasNoColon d
    → conversation_id a b ≡ conversation_id c d
    → ((a ≡ c) × (b ≡ d)) ⊎ ((a ≡ d) × (b ≡ c))
conversation_id_inj a b c d ha hb hc hd e = ground (arith, same)
  where
    same :
        (if text_lt b a then b ∷ a ∷ [] else a ∷ b ∷ [])
        ≡ (if text_lt d c then d ∷ c ∷ [] else c ∷ d ∷ [])
    same =
        sym (parts-conversation_id a b ha hb)
        ∙ ap (λ t. split (trim_prefix t prefix) colon) e
        ∙ parts-conversation_id c d hc hd
