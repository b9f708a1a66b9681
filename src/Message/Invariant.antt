-- ===== src/Message/Invariant.antt =====
-- The invariant of the message tables of services/message/service/message.go: numbers without gaps, no
-- message outside a conversation, and read positions within the conversation.
use social_ai_backend.Common.{
  ℕ, zero, suc, ◌≤◌, ◌≡◌, refl, sym, ap, subst, ◌∙◌, inl, inr, Bool, true, false, ◌||◌, some, List,
  [], ◌∷◌, ◌++◌, arith, if◌then◌else◌, not, Bool-cases, any, keep, keep-append, map, any-append,
  append-nil, All, All-append, All-weaken, Text, text_eq, text_eq→eq, found_or, Ensures,
}
use mathlib.Core.List.{map-append}
use social_ai_backend.Message.Tables.{
  Db, ConversationRow, MessageRow, insert_conversation, insert_members, seq_in, is_member,
  is_conversation,
}
use social_ai_backend.Message.Send.{db_error}

-- The numbers 1 to n.
abbrev pub up_to : ℕ → List ℕ
up_to zero = []
up_to (suc n) = up_to n ++ suc n ∷ []

abbrev pub is_message_of : Text → MessageRow → Bool
is_message_of id m = text_eq id m.conversation_id

-- The numbers of a conversation's messages, in the order in which they were stored.
abbrev pub seqs : Text → List MessageRow → List ℕ
seqs id ms = map (λ m. m.seq) (keep (is_message_of id) ms)

-- A conversation's number, and 0 for one that does not exist.
abbrev pub last_seq_of : Text → List ConversationRow → ℕ
last_seq_of id [] = 0
last_seq_of id (c ∷ cs) = if is_conversation id c then c.last_seq else last_seq_of id cs

pub record IsValid (db : Db) : Type 0 where
  pub gap_free : All (λ c. seqs c.conversation_id db.messages ≡ up_to c.last_seq) db.conversations
  pub owned : All (λ m. any (is_conversation m.conversation_id) db.conversations ≡ true) db.messages
  pub read_within :
      All (λ m. m.last_read_seq ≤ last_seq_of m.conversation_id db.conversations) db.members

pub seqs-append :
    (id : Text) (ms : List MessageRow) (row : MessageRow)
    → seqs id (ms ++ row ∷ [])
      ≡ (if is_message_of id row then seqs id ms ++ row.seq ∷ [] else seqs id ms)
seqs-append id ms row = elim (Bool-cases (is_message_of id row)) [
  | inl e ↦
      rw (keep-append (is_message_of id) ms (row ∷ []), e)
        (map-append _ (keep (is_message_of id) ms) (row ∷ []))
  | inr e ↦
      rw (keep-append (is_message_of id) ms (row ∷ []), e, append-nil (keep (is_message_of id) ms))
        refl
]

seqs_none :
    (id : Text) (cs : List ConversationRow) (ms : List MessageRow)
    → All (λ m. any (is_conversation m.conversation_id) cs ≡ true) ms
    → any (is_conversation id) cs ≡ false
    → seqs id ms ≡ []
seqs_none id cs [] h k = refl
seqs_none id cs (m ∷ ms) h k = elim (Bool-cases (is_message_of id m)) [
  | inl e ↦ absurd (
      ground (
        arith,
        k,
        subst (λ t. any (is_conversation t) cs ≡ true) (sym (text_eq→eq id m.conversation_id e))
            h.0,
      ))
  | inr e ↦ rw e (seqs_none id cs ms h.1 k)
]

last_seq_of-append :
    (id : Text) (cs : List ConversationRow) (new : ConversationRow)
    → new.last_seq ≡ 0
    → last_seq_of id (cs ++ new ∷ []) ≡ last_seq_of id cs
last_seq_of-append id [] new e = ground (arith, e)
last_seq_of-append id (c ∷ cs) new e = elim (Bool-cases (is_conversation id c)) [
  | inl h ↦ rw h refl
  | inr h ↦ rw h (last_seq_of-append id cs new e)
]

pub insert_conversation-IsValid :
    (id : Text) (db : Db) → IsValid db → IsValid (insert_conversation id db).0
unfolding insert_conversation
insert_conversation-IsValid id db v =
    elim (Bool-cases (any (is_conversation id) db.conversations)) [
      | inl e ↦ rw e v
      | inr e ↦ rw e (record {
        gap_free =
            All-append _ db.conversations _ v.gap_free
              (seqs_none id db.conversations db.messages v.owned e, tt);
        owned =
            All-weaken _ _
              (λ m h. any-append (is_conversation m.conversation_id) db.conversations _ ∙ rw h refl)
              db.messages v.owned;
        read_within =
            All-weaken _ _
              (λ m h.
                subst (λ n. m.last_read_seq ≤ n)
                  (sym (last_seq_of-append m.conversation_id db.conversations _ refl)) h)
              db.members v.read_within;
      })
    ]

pub insert_members-IsValid :
    (id a b : Text) (db : Db)
    → IsValid db
    → Ensures IsValid (found_or db_error (insert_members id a b db))
unfolding insert_members
insert_members-IsValid id a b db v =
    elim (Bool-cases (
      not (any (is_conversation id) db.conversations)
      || any (is_member id a) db.members
      || any (is_member id b) db.members
      || text_eq a b)) [
        | inl e ↦ rw e tt
        | inr e ↦ rw e (record {
          gap_free = v.gap_free;
          owned = v.owned;
          read_within = All-append _ db.members _ v.read_within (omega arith, (omega arith, tt));
        })
      ]

pub some-inj : {a b : ℕ} → some a ≡ some b → a ≡ b
some-inj e = cc

-- A conversation's number is that of its messages.
pub seq_in-seqs :
    (id : Text) (cs : List ConversationRow) (ms : List MessageRow) (n : ℕ)
    → All (λ c. seqs c.conversation_id ms ≡ up_to c.last_seq) cs
    → seq_in id cs ≡ some n
    → seqs id ms ≡ up_to n
unfolding seq_in
seq_in-seqs id [] ms n v e = cc
seq_in-seqs id (c ∷ cs) ms n v e = elim (Bool-cases (is_conversation id c)) [
  | inl h ↦ rw (text_eq→eq id c.conversation_id h) (v.0 ∙ ap up_to (some-inj (rw h at e)))
  | inr h ↦ seq_in-seqs id cs ms n v.1 (rw h at e)
]

pub any_of_seq_in :
    (id : Text) (cs : List ConversationRow) (n : ℕ)
    → seq_in id cs ≡ some n
    → any (is_conversation id) cs ≡ true
unfolding seq_in
any_of_seq_in id [] n e = cc
any_of_seq_in id (c ∷ cs) n e = elim (Bool-cases (is_conversation id c)) [
  | inl h ↦ rw h refl
  | inr h ↦ rw h (any_of_seq_in id cs n (rw h at e))
]
