-- ===== src/Message/Valid.antt =====
-- The message tables after `SendMessage` (services/message/service/message.go).
use social_ai_backend.Common.{
  ℕ, zero, suc, ◌+◌, ◌≡◌, refl, sym, subst, inl, inr, Bool, not, ◌&&◌, ◌||◌, Option, none, some, [],
  ◌∷◌, ◌++◌, arith, Bool-cases, any, length, Text, text_eq, leb, ok, err, found_or, found_or_self,
  Ensures, Ensures->>=, Ensures-nothing, after,
}
use social_ai_backend.Transaction.{Weather, in_tx-Ensures}
use social_ai_backend.Message.Names.{conversation_id}
use social_ai_backend.Message.Tables.{
  Db, MessageRow, insert_conversation, seq_in, has_seq, is_conversation, key_taken, insert_message,
  update_conversation, update_members,
}
use social_ai_backend.Message.Send.{
  Result, call, ensure_members, previous, store, send_tx, send_message, deliver, reply, optional,
  lesser, greater, db_error,
}
use social_ai_backend.Message.Appended.{appended-IsValid}
use social_ai_backend.Message.Invariant.{
  IsValid, insert_conversation-IsValid, insert_members-IsValid,
}

pub insert_message_ok :
    (row : MessageRow) (db : Db)
    → Ensures
        (λ s. s ≡ record db { messages = db.messages ++ row ∷ [] })
        (found_or db_error (insert_message row db))
unfolding insert_message
insert_message_ok row db =
    elim (Bool-cases (
      not (any (is_conversation row.conversation_id) db.conversations)
      || any (has_seq row.conversation_id row.seq) db.messages
      || key_taken row.conversation_id row.sender_id row.client_msg_id db.messages
      || not (leb 1 (length row.content) && leb (length row.content) 4000))) [
        | inl e ↦ rw e tt
        | inr e ↦ rw e refl
      ]

abbrev EndsValid : Db × (ℕ × ℕ × Bool) → Type 0
EndsValid r = IsValid r.0

module _ (w : Weather) (now : ℕ) (sender receiver content : Text) (key : Option Text) where
  store-IsValid :
      (id : Text) (n : ℕ) (prev : Option MessageRow) (db : Db)
      → IsValid db
      → seq_in id db.conversations ≡ some n
      → Ensures EndsValid (store w now id sender content key n prev db)
  unfolding store
  store-IsValid id n (some prev) db v last = elim (Bool-cases (text_eq prev.content content)) [
    | inl e ↦ rw e v
    | inr e ↦ rw e tt
  ]
  store-IsValid id n none db v last =
      let row : MessageRow = record {
        conversation_id = id;
        seq = n + 1;
        sender_id = sender;
        content = content;
        created_at = now;
        client_msg_id = key;
      } in
      after _ (call w 6) _ (
        Ensures->>= (λ s. s ≡ record db { messages = db.messages ++ row ∷ [] }) EndsValid _ _
          (insert_message_ok row db)
          (λ stored e. after _ (call w 7) _ (
            after _ (call w 8) _ (
              subst
                (λ s.
                  IsValid
                    (update_members id now sender (n + 1) (update_conversation id (n + 1) now s)))
                (sym e) (appended-IsValid id sender now n row db v last refl (omega arith))))))

  ensure_members-IsValid :
      (id : Text) (n : ℕ) (db : Db)
      → IsValid db
      → Ensures IsValid (ensure_members w id sender receiver n db)
  unfolding ensure_members
  ensure_members-IsValid id zero db v = v
  ensure_members-IsValid id (suc n) db v =
      after _ (call w 3) _
        (insert_members-IsValid id (lesser sender receiver) (greater sender receiver) db v)

  send_tx-IsValid :
      (db : Db) → IsValid db → Ensures EndsValid (send_tx w now sender receiver content key db)
  unfolding send_tx
  send_tx-IsValid db v =
      let id = conversation_id sender receiver in
      after _ (call w 2) _ (
        Ensures->>= IsValid EndsValid _ _
          (ensure_members-IsValid id (insert_conversation id db).1 (insert_conversation id db).0
            (insert_conversation-IsValid id db v))
          (λ ready u. after _ (call w 4) _ (
            Ensures->>= _ EndsValid _ _ (found_or_self db_error (seq_in id ready.conversations))
              (λ n last.
                Ensures->>= (λ _. Unit {0}) EndsValid (previous w id sender key ready) _
                  (Ensures-nothing (previous w id sender key ready))
                  (λ prev _. store-IsValid id n prev ready u last)))))

reply_tables :
    (sender receiver content : Text) (r : Db × Result (ℕ × ℕ × Bool))
    → (reply sender receiver content r).0 ≡ r.0
unfolding reply
reply_tables sender receiver content (db, ok a) = refl
reply_tables sender receiver content (db, err e) = refl

deliver-IsValid :
    (w : Weather) (now : ℕ) (sender receiver content client_msg_id : Text) (db : Db)
    (admitted : Result (Unit {0}))
    → IsValid db
    → IsValid (deliver w now sender receiver content client_msg_id db admitted).0
unfolding deliver
deliver-IsValid w now sender receiver content client_msg_id db (err e) v = v
deliver-IsValid w now sender receiver content client_msg_id db (ok _) v =
    subst IsValid (sym (reply_tables sender receiver content _)) (
      in_tx-Ensures db_error IsValid w db _ v
        (send_tx-IsValid w now sender receiver content (optional client_msg_id) db v))

-- Whatever the database does during the request, a commit of unknown outcome included, `SendMessage`
-- keeps the tables well formed: the numbers of a conversation's messages are 1, 2, ... up to its
-- last_seq, every message belongs to a conversation, and no member's last_read_seq is beyond the
-- last_seq of its conversation.
pub send_message-IsValid :
    (w : Weather) (now : ℕ) (sender receiver content client_msg_id : Text) (db : Db)
    → IsValid db
    → IsValid (send_message w now sender receiver content client_msg_id db).0
unfolding send_message
send_message-IsValid w now sender receiver content client_msg_id db v =
    deliver-IsValid w now sender receiver content client_msg_id db _ v
