-- ===== src/Message/Read.antt =====
-- services/message/service/message.go: `MarkRead`, one UPDATE outside a transaction.
use social_ai_backend.Common.{
  ℕ, ◌+◌, ◌≤◌, ◌≡◌, refl, subst, inl, inr, true, false, none, some, List, [], ◌∷◌, arith,
  if◌then◌else◌, Bool-cases, ltb, ◌==◌, All, ◌⊎◌, text_eq→eq, Text, Option-cases, ok, err,
}
use social_ai_backend.Common.Int.{ℤ, pos, negsuc}
use social_ai_backend.Transaction.{Weather}
use social_ai_backend.Message.Names.{conversation_id}
use social_ai_backend.Message.Tables.{Db, ConversationRow, MemberRow, seq_in, is_member}
use social_ai_backend.Message.Send.{Result, db_error, conversation_not_found}
use social_ai_backend.Message.Invariant.{IsValid, last_seq_of}
use social_ai_backend.Message.Appended.{last_seq_of-seq_in}

-- GREATEST(m.last_read_seq, LEAST($3, c.last_seq)), where only the request's number can be negative.
unfoldable pub read_up_to : ℕ → ℤ → ℕ → ℕ
read_up_to read (pos seq) last =
    let least = if ltb seq last then seq else last in if ltb read least then least else read
read_up_to read (negsuc seq) last = read

-- The UPDATE at one member, with the number of rows affected.
abbrev pub mark_row : Text → Text → ℤ → List ConversationRow → MemberRow → MemberRow × ℕ
mark_row id user seq cs m =
    if is_member id user m
    then elim (seq_in m.conversation_id cs) [
      | none ↦ (m, 0)
      | some last ↦ (record m { last_read_seq = read_up_to m.last_read_seq seq last }, 1)
    ]
    else (m, 0)

unfoldable pub mark_rows :
    Text → Text → ℤ → List ConversationRow → List MemberRow → List MemberRow × ℕ
mark_rows id user seq cs [] = ([], 0)
mark_rows id user seq cs (m ∷ ms) = (
  (mark_row id user seq cs m).0 ∷ (mark_rows id user seq cs ms).0,
  (mark_row id user seq cs m).1 + (mark_rows id user seq cs ms).1,
)

-- An error of the call leaves open whether the statement took effect.
unfoldable pub mark_read : Weather → Text → Text → ℤ → Db → Db × Result (Unit {0})
mark_read w user with_user seq db =
    let (members, affected) =
      mark_rows (conversation_id user with_user) user seq db.conversations db.members in
    if w.fails 0
    then (if w.commit_lost then record db { members = members } else db, err db_error)
    else (
      record db { members = members },
      if affected == 0 then err conversation_not_found else ok tt,
    )

-- The same members in the same order, none of whose read positions is lower.
abbrev pub NotBack : List MemberRow → List MemberRow → Type 0
NotBack [] [] = Unit
NotBack [] (m ∷ ms) = ⊥
NotBack (m ∷ ms) [] = ⊥
NotBack (m ∷ ms) (m' ∷ ms') =
    (m.conversation_id ≡ m'.conversation_id)
    × (m.user_id ≡ m'.user_id)
    × (m.last_read_seq ≤ m'.last_read_seq)
    × NotBack ms ms'

NotBack-refl : (ms : List MemberRow) → NotBack ms ms
NotBack-refl [] = tt
NotBack-refl (m ∷ ms) = (refl, refl, omega arith, NotBack-refl ms)

read_up_to-ge : (read : ℕ) (seq : ℤ) (last : ℕ) → read ≤ read_up_to read seq last
unfolding read_up_to
read_up_to-ge read (pos seq) last = ground arith
read_up_to-ge read (negsuc seq) last = omega arith

read_up_to-le : (read : ℕ) (seq : ℤ) (last : ℕ) → read ≤ last → read_up_to read seq last ≤ last
unfolding read_up_to
read_up_to-le read (pos seq) last h = ground arith
read_up_to-le read (negsuc seq) last h = h

-- Either the UPDATE leaves a member alone, or it raises its read position within the conversation.
mark_row_cases :
    (id user : Text) (seq : ℤ) (cs : List ConversationRow) (m : MemberRow)
    → (mark_row id user seq cs m ≡ (m, 0))
      ⊎ ((last : ℕ) × (seq_in m.conversation_id cs ≡ some last)
          × (mark_row id user seq cs m
              ≡ (record m { last_read_seq = read_up_to m.last_read_seq seq last }, 1)))
mark_row_cases id user seq cs m = elim (Bool-cases (is_member id user m)) [
  | inr e ↦ inl (rw e refl)
  | inl e ↦ elim (Option-cases (seq_in m.conversation_id cs)) [
    | inl h ↦ inl (rw (e, h) refl)
    | inr (last, h) ↦ inr (last, h, rw (e, h) refl)
  ]
]

mark_rows-NotBack :
    (id user : Text) (seq : ℤ) (cs : List ConversationRow) (ms : List MemberRow)
    → NotBack ms (mark_rows id user seq cs ms).0
unfolding mark_rows
mark_rows-NotBack id user seq cs [] = tt
mark_rows-NotBack id user seq cs (m ∷ ms) = elim (mark_row_cases id user seq cs m) [
  | inl e ↦ rw e (refl, refl, omega arith, mark_rows-NotBack id user seq cs ms)
  | inr (last, _, e) ↦
      rw e (refl, refl, read_up_to-ge m.last_read_seq seq last, mark_rows-NotBack id user seq cs ms)
]

mark_rows-within :
    (id user : Text) (seq : ℤ) (cs : List ConversationRow) (ms : List MemberRow)
    → All (λ m. m.last_read_seq ≤ last_seq_of m.conversation_id cs) ms
    → All (λ m. m.last_read_seq ≤ last_seq_of m.conversation_id cs) (mark_rows id user seq cs ms).0
unfolding mark_rows
mark_rows-within id user seq cs [] h = tt
mark_rows-within id user seq cs (m ∷ ms) h = elim (mark_row_cases id user seq cs m) [
  | inl e ↦ rw e (h.0, mark_rows-within id user seq cs ms h.1)
  | inr (last, known, e) ↦
      let lem = last_seq_of-seq_in m.conversation_id cs last known in
      rw e (
        rw lem (read_up_to-le m.last_read_seq seq last (rw lem at h.0)),
        mark_rows-within id user seq cs ms h.1,
      )
]

-- On well-formed tables, in any weather and for any number, `MarkRead` lowers no member's read
-- position, adds or removes no member, and keeps the tables well formed, so no position passes its
-- conversation's last message.
pub mark_read_forward :
    (w : Weather) (user with_user : Text) (seq : ℤ) (db : Db)
    → IsValid db
    → NotBack db.members (mark_read w user with_user seq db).0.members
      × IsValid (mark_read w user with_user seq db).0
unfolding mark_read
mark_read_forward w user with_user seq db v = elim (Bool-cases (w.fails 0)) [
  | inl e ↦ elim (Bool-cases w.commit_lost) [
    | inl lost ↦ rw (e, lost) marked
    | inr lost ↦ rw (e, lost) (NotBack-refl db.members, v)
  ]
  | inr e ↦ rw e marked
]
  where
    id : Text
    id = conversation_id user with_user

    marked :
        NotBack db.members (mark_rows id user seq db.conversations db.members).0
        × IsValid (record db { members = (mark_rows id user seq db.conversations db.members).0 })
    marked = (
      mark_rows-NotBack id user seq db.conversations db.members,
      record {
        gap_free = v.gap_free;
        owned = v.owned;
        read_within = mark_rows-within id user seq db.conversations db.members v.read_within;
      },
    )

-- A member's position is the conversation's last message.
abbrev pub AllRead : Text → Text → ℕ → List MemberRow → Type 0
AllRead id user last = All (λ m. is_member id user m ≡ true → m.last_read_seq ≡ last)

read_up_to_last :
    (read seq last : ℕ) → read ≤ last → last ≤ seq → read_up_to read (pos seq) last ≡ last
unfolding read_up_to
read_up_to_last read seq last h k = ground arith

mark_rows-AllRead :
    (id user : Text) (seq last : ℕ) (cs : List ConversationRow) (ms : List MemberRow)
    → seq_in id cs ≡ some last
    → last ≤ seq
    → All (λ m. m.last_read_seq ≤ last_seq_of m.conversation_id cs) ms
    → AllRead id user last (mark_rows id user (pos seq) cs ms).0
unfolding mark_rows
mark_rows-AllRead id user seq last cs [] known le h = tt
mark_rows-AllRead id user seq last cs (m ∷ ms) known le h =
    elim (Bool-cases (is_member id user m)) [
      | inr e ↦ rw e (
        λ k. absurd (ground (arith, e, k)),
        mark_rows-AllRead id user seq last cs ms known le h.1,
      )
      | inl e ↦
          rw (e, known_for e)
            (
              λ _.
                  read_up_to_last m.last_read_seq seq last
                    (rw (last_seq_of-seq_in m.conversation_id cs last (known_for e)) at h.0) le,
              mark_rows-AllRead id user seq last cs ms known le h.1,
            )
    ]
  where
    same : is_member id user m ≡ true → id ≡ m.conversation_id
    same e = text_eq→eq id m.conversation_id (ground (arith, e))

    known_for : is_member id user m ≡ true → seq_in m.conversation_id cs ≡ some last
    known_for e = subst (λ t. seq_in t cs ≡ some last) (same e) known

-- On well-formed tables, when a member marks an existing conversation read up to the last message
-- or beyond, and the database answers, the member has no unread message left: its read position is
-- the conversation's last_seq.
pub mark_read_all :
    (w : Weather) (user with_user : Text) (seq last : ℕ) (db : Db)
    → IsValid db
    → w.fails 0 ≡ false
    → seq_in (conversation_id user with_user) db.conversations ≡ some last
    → last ≤ seq
    → AllRead
        (conversation_id user with_user)
        user
        last
        (mark_read w user with_user (pos seq) db).0.members
unfolding mark_read
mark_read_all w user with_user seq last db v calm known le = rw calm (
    mark_rows-AllRead (conversation_id user with_user) user seq last db.conversations db.members
      known le v.read_within)
