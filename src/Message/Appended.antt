-- ===== src/Message/Appended.antt =====
-- The invariant after a message was stored (`SendMessage` of services/message/service/message.go).
use social_ai_backend.Common.{
  ℕ, suc, ◌≤◌, ◌≡◌, refl, sym, subst, ◌∙◌, inl, inr, true, false, some, List, [], ◌∷◌, ◌++◌, arith,
  if◌then◌else◌, Bool-cases, any, map, All, All-append, All-weaken, Text, text_eq, text_eq→eq,
  text_eq_refl, text_eq_comm,
}
use social_ai_backend.Message.Tables.{
  Db, ConversationRow, MemberRow, MessageRow, seq_in, update_conversation, update_members,
  is_conversation, set_last, set_inbox,
}
-- The numbers 1 to n.
use social_ai_backend.Message.Invariant.{
  up_to, seqs, last_seq_of, IsValid, seqs-append, some-inj, seq_in-seqs, any_of_seq_in,
}

any-set_last :
    (id j : Text) (seq at : ℕ) (cs : List ConversationRow)
    → any (is_conversation j) (map (set_last id seq at) cs) ≡ any (is_conversation j) cs
any-set_last id j seq at [] = refl
any-set_last id j seq at (c ∷ cs) = elim (Bool-cases (is_conversation id c)) [
  | inl h ↦ rw (h, any-set_last id j seq at cs) refl
  | inr h ↦ rw (h, any-set_last id j seq at cs) refl
]

pub last_seq_of-seq_in :
    (id : Text) (cs : List ConversationRow) (n : ℕ) → seq_in id cs ≡ some n → last_seq_of id cs ≡ n
unfolding seq_in
last_seq_of-seq_in id [] n e = cc
last_seq_of-seq_in id (c ∷ cs) n e = elim (Bool-cases (is_conversation id c)) [
  | inl h ↦ rw h (some-inj (rw h at e))
  | inr h ↦ rw h (last_seq_of-seq_in id cs n (rw h at e))
]

last_seq_of-set_last :
    (id : Text) (seq at : ℕ) (cs : List ConversationRow)
    → last_seq_of id cs ≤ seq
    → last_seq_of id cs ≤ last_seq_of id (map (set_last id seq at) cs)
last_seq_of-set_last id seq at [] le = omega arith
last_seq_of-set_last id seq at (c ∷ cs) le = elim (Bool-cases (is_conversation id c)) [
  | inl h ↦ rw (h, h) (rw h at le)
  | inr h ↦ rw (h, h) (last_seq_of-set_last id seq at cs (rw h at le))
]

-- The new number itself, where there is such a conversation.
last_seq_of-set_last_self :
    (id : Text) (seq at : ℕ) (cs : List ConversationRow)
    → any (is_conversation id) cs ≡ true
    → last_seq_of id (map (set_last id seq at) cs) ≡ seq
last_seq_of-set_last_self id seq at [] e = cc
last_seq_of-set_last_self id seq at (c ∷ cs) e = elim (Bool-cases (is_conversation id c)) [
  | inl h ↦ rw (h, h) refl
  | inr h ↦ rw (h, h) (last_seq_of-set_last_self id seq at cs (rw h at e))
]

last_seq_of-set_last_ne :
    (id j : Text) (seq at : ℕ) (cs : List ConversationRow)
    → text_eq id j ≡ false
    → last_seq_of j (map (set_last id seq at) cs) ≡ last_seq_of j cs
last_seq_of-set_last_ne id j seq at [] ne = refl
last_seq_of-set_last_ne id j seq at (c ∷ cs) ne = elim (Bool-cases (is_conversation id c)) [
  | inl h ↦
      let k : is_conversation j c ≡ false =
        subst (λ t. text_eq j t ≡ false) (text_eq→eq id c.conversation_id h)
          (text_eq_comm j id ∙ ne) in
      rw (h, k, last_seq_of-set_last_ne id j seq at cs ne) refl
  | inr h ↦ rw (h, last_seq_of-set_last_ne id j seq at cs ne) refl
]

-- The tables after a new message, with the updates that go with it.
abbrev pub appended : Text → Text → ℕ → MessageRow → Db → Db
appended id sender now row db =
    update_members id now sender row.seq
      (update_conversation id row.seq now (record db { messages = db.messages ++ row ∷ [] }))

module _ (id sender : Text) (now n : ℕ) (row : MessageRow) (db : Db) (v : IsValid db)
    (last : seq_in id db.conversations ≡ some n) (of_id : row.conversation_id ≡ id)
    (next : row.seq ≡ suc n) where
  grown : seqs id (db.messages ++ row ∷ []) ≡ up_to row.seq
  grown =
      seqs-append id db.messages row
      ∙ rw
          (
            of_id,
            text_eq_refl id,
            seq_in-seqs id db.conversations db.messages n v.gap_free last,
            next,
          )
          refl

  appended-gap_free :
      (cs : List ConversationRow)
      → All (λ c. seqs c.conversation_id db.messages ≡ up_to c.last_seq) cs
      → All
          (λ c. seqs c.conversation_id (db.messages ++ row ∷ []) ≡ up_to c.last_seq)
          (map (set_last id row.seq now) cs)
  appended-gap_free [] h = tt
  appended-gap_free (c ∷ cs) h = elim (Bool-cases (is_conversation id c)) [
    | inl e ↦ rw e (
      subst (λ t. seqs t (db.messages ++ row ∷ []) ≡ up_to row.seq)
          (text_eq→eq id c.conversation_id e) grown,
      appended-gap_free cs h.1,
    )
    | inr e ↦ rw e (
      seqs-append c.conversation_id db.messages row
          ∙ rw (of_id, text_eq_comm c.conversation_id id, e) h.0,
      appended-gap_free cs h.1,
    )
  ]

  appended-read_within :
      (ms : List MemberRow)
      → All (λ m. m.last_read_seq ≤ last_seq_of m.conversation_id db.conversations) ms
      → All
          (λ m.
            m.last_read_seq
            ≤ last_seq_of m.conversation_id (map (set_last id row.seq now) db.conversations))
          (map (set_inbox id now sender row.seq) ms)
  appended-read_within [] h = tt
  appended-read_within (m ∷ ms) h = elim (Bool-cases (text_eq id m.conversation_id)) [
    | inl e ↦ rw e (within e, appended-read_within ms h.1)
    | inr e ↦ rw e (
      subst (λ k. m.last_read_seq ≤ k)
          (sym (last_seq_of-set_last_ne id m.conversation_id row.seq now db.conversations e)) h.0,
      appended-read_within ms h.1,
    )
  ]
    where
      old : text_eq id m.conversation_id ≡ true → m.last_read_seq ≤ n
      old e =
          subst (λ k. m.last_read_seq ≤ k) (last_seq_of-seq_in id db.conversations n last)
            (subst (λ t. m.last_read_seq ≤ last_seq_of t db.conversations)
              (sym (text_eq→eq id m.conversation_id e)) h.0)

      within :
          text_eq id m.conversation_id ≡ true
          → (if text_eq sender m.user_id then row.seq else m.last_read_seq)
            ≤ last_seq_of m.conversation_id (map (set_last id row.seq now) db.conversations)
      within e =
          subst
            (λ t.
              (if text_eq sender m.user_id then row.seq else m.last_read_seq)
              ≤ last_seq_of t (map (set_last id row.seq now) db.conversations))
            (text_eq→eq id m.conversation_id e)
            (rw
              (last_seq_of-set_last_self id row.seq now db.conversations
                (any_of_seq_in id db.conversations n last))
              (ground (arith, old e, next)))

  pub appended-IsValid : IsValid (appended id sender now row db)
  unfolding update_members update_conversation
  appended-IsValid = record {
    gap_free = appended-gap_free db.conversations v.gap_free;
    owned =
        All-append _ db.messages (row ∷ [])
          (All-weaken _ _
            (λ m h. any-set_last id m.conversation_id row.seq now db.conversations ∙ h) db.messages
            v.owned)
          (
            any-set_last id row.conversation_id row.seq now db.conversations
                ∙ rw of_id (any_of_seq_in id db.conversations n last),
            tt,
          );
    read_within = appended-read_within db.members v.read_within;
  }
