-- ===== src/Message/Retry.antt =====
-- `SendMessage` (services/message/service/message.go) called again with the same idempotency key.
use social_ai_backend.Common.{
  ℕ, zero, suc, ◌+◌, ◌≡◌, refl, sym, subst, ◌∙◌, inl, inr, Bool, true, false, ◌||◌, Option, none,
  some, List, [], ◌∷◌, ◌++◌, arith, not, Bool-cases, any, map, Text, text_eq, text_eq_refl,
  text_eq→eq, ok, found_or, found_or_self, Ensures, Ensures->>=, after,
}
use social_ai_backend.Transaction.{Weather, calm}
use social_ai_backend.Message.Names.{conversation_id}
use social_ai_backend.Message.Tables.{
  Db, ConversationRow, MessageRow, insert_conversation, insert_members, seq_in, find_client_id,
  has_client_id, is_member, is_conversation, set_last, update_conversation, update_members,
}
use social_ai_backend.Message.Send.{
  call, ensure_members, previous, store, send_tx, lesser, greater, db_error,
}
use social_ai_backend.Message.Invariant.{any_of_seq_in}
use social_ai_backend.Message.Valid.{insert_message_ok}

seq_in-set_last :
    (id : Text) (seq at n : ℕ) (cs : List ConversationRow)
    → seq_in id cs ≡ some n
    → seq_in id (map (set_last id seq at) cs) ≡ some seq
unfolding seq_in
seq_in-set_last id seq at n [] e = cc
seq_in-set_last id seq at n (c ∷ cs) e = elim (Bool-cases (is_conversation id c)) [
  | inl h ↦ rw (h, h) refl
  | inr h ↦ rw (h, h) (seq_in-set_last id seq at n cs (rw h at e))
]

find_client_id-append :
    (id sender key : Text) (ms : List MessageRow) (row : MessageRow)
    → find_client_id id sender key ms ≡ none
    → has_client_id id sender key row ≡ true
    → find_client_id id sender key (ms ++ row ∷ []) ≡ some row
unfolding find_client_id
find_client_id-append id sender key [] row e h = rw h refl
find_client_id-append id sender key (m ∷ ms) row e h =
    elim (Bool-cases (has_client_id id sender key m)) [
      | inl k ↦ absurd (ground (arith, k, e))
      | inr k ↦ rw k (find_client_id-append id sender key ms row (rw k at e) h)
    ]

insert_conversation_known :
    (id : Text) (db : Db)
    → any (is_conversation id) db.conversations ≡ true
    → insert_conversation id db ≡ (db, 0)
unfolding insert_conversation
insert_conversation_known id db h = rw h refl

insert_conversation_users : (id : Text) (db : Db) → (insert_conversation id db).0.users ≡ db.users
unfolding insert_conversation
insert_conversation_users id db = elim (Bool-cases (any (is_conversation id) db.conversations)) [
  | inl e ↦ rw e refl
  | inr e ↦ rw e refl
]

insert_members_users :
    (id a b : Text) (db : Db)
    → Ensures (λ d. d.users ≡ db.users) (found_or db_error (insert_members id a b db))
unfolding insert_members
insert_members_users id a b db =
    elim (Bool-cases (
      not (any (is_conversation id) db.conversations)
      || any (is_member id a) db.members
      || any (is_member id b) db.members
      || text_eq a b)) [ inl e ↦ rw e tt | inr e ↦ rw e refl ]

module _ (id sender content key : Text) (users : List Text) where
  -- The tables hold the message of a request, with the number and the time that the transaction
  -- returned.
  pub record Holds (r : Db × (ℕ × ℕ × Bool)) : Type 0 where
    pub users_kept : r.0.users ≡ users
    pub last : ℕ
    pub known : seq_in id r.0.conversations ≡ some last
    pub row : MessageRow
    pub found : find_client_id id sender key r.0.messages ≡ some row
    pub of_seq : row.seq ≡ r.1.0
    pub of_time : row.created_at ≡ r.1.1
    pub of_content : row.content ≡ content

  store-Holds :
      (w : Weather) (now n : ℕ) (prev : Option MessageRow) (db : Db)
      → db.users ≡ users
      → seq_in id db.conversations ≡ some n
      → find_client_id id sender key db.messages ≡ prev
      → Ensures Holds (store w now id sender content (some key) n prev db)
  unfolding store update_members update_conversation
  store-Holds w now n (some prev) db u last found =
      elim (Bool-cases (text_eq prev.content content)) [
        | inl e ↦ rw e (record {
          users_kept = u;
          last = n;
          known = last;
          row = prev;
          found = found;
          of_seq = refl;
          of_time = refl;
          of_content = text_eq→eq prev.content content e;
        })
        | inr e ↦ rw e tt
      ]
  store-Holds w now n none db u last found =
      let new : MessageRow = record {
        conversation_id = id;
        seq = n + 1;
        sender_id = sender;
        content = content;
        created_at = now;
        client_msg_id = some key;
      } in
      after _ (call w 6) _ (
        Ensures->>= (λ s. s ≡ record db { messages = db.messages ++ new ∷ [] }) Holds _ _
          (insert_message_ok new db)
          (λ s e. after _ (call w 7) _ (
            after _ (call w 8) _ (
              subst
                (λ d. Holds (
                  update_members id now sender (n + 1) (update_conversation id (n + 1) now d),
                  (n + 1, now, false),
                ))
                (sym e)
                (record {
                  users_kept = u;
                  last = n + 1;
                  known = seq_in-set_last id (n + 1) now n db.conversations last;
                  row = new;
                  found =
                      find_client_id-append id sender key db.messages new found
                        (rw (text_eq_refl id, text_eq_refl sender, text_eq_refl key) refl);
                  of_seq = refl;
                  of_time = refl;
                  of_content = refl;
                })))))

ensure_members_users :
    (w : Weather) (id sender receiver : Text) (n : ℕ) (db : Db)
    → Ensures (λ d. d.users ≡ db.users) (ensure_members w id sender receiver n db)
unfolding ensure_members
ensure_members_users w id sender receiver zero db = refl
ensure_members_users w id sender receiver (suc n) db =
    after _ (call w 3) _
      (insert_members_users id (lesser sender receiver) (greater sender receiver) db)

previous_self :
    (w : Weather) (id sender key : Text) (db : Db)
    → Ensures
        (λ p. find_client_id id sender key db.messages ≡ p)
        (previous w id sender (some key) db)
unfolding previous
previous_self w id sender key db = after _ (call w 5) _ refl

module _ (sender receiver content key : Text) where
  pub send_tx-Holds :
      (w : Weather) (now : ℕ) (db : Db)
      → Ensures
          (Holds (conversation_id sender receiver) sender content key db.users)
          (send_tx w now sender receiver content (some key) db)
  unfolding send_tx
  send_tx-Holds w now db =
      let id = conversation_id sender receiver in
      let P = Holds id sender content key db.users in
      after _ (call w 2) _ (
        Ensures->>= _ P _ _
          (ensure_members_users w id sender receiver (insert_conversation id db).1
            (insert_conversation id db).0)
          (λ ready u. after _ (call w 4) _ (
            Ensures->>= _ P _ _ (found_or_self db_error (seq_in id ready.conversations)) (λ n last.
              Ensures->>= _ P _ _ (previous_self w id sender key ready) (λ prev found.
                store-Holds id sender content key db.users w now n prev ready
                  (u ∙ insert_conversation_users id db) last found)))))

  -- With the message stored, a transaction that meets no error replays it.
  pub send_tx-replay :
      (now : ℕ) (users : List Text) (r : Db × (ℕ × ℕ × Bool))
      → Holds (conversation_id sender receiver) sender content key users r
      → send_tx calm now sender receiver content (some key) r.0 ≡ ok (r.0, (r.1.0, r.1.1, true))
  unfolding send_tx ensure_members previous store
  send_tx-replay now users r h =
      rw
        (
          insert_conversation_known (conversation_id sender receiver) r.0
              (any_of_seq_in (conversation_id sender receiver) r.0.conversations h.last h.known),
          h.known,
          h.found,
          h.of_content,
          text_eq_refl content,
          h.of_seq,
          h.of_time,
        )
        refl
