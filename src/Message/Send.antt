-- ===== src/Message/Send.antt =====
-- services/message/service/message.go: `SendMessage`, its transaction and its errors.
use social_ai_backend.Common.{
  ℕ, zero, suc, ◌+◌, Bool, true, false, not, ◌||◌, Option, none, some, [], ◌∷◌, ltb, if◌then◌else◌,
  length, Text, text_eq, text_lt, is_empty, Attempt, ok, err, ◌>>=◌, ◌>>◌, refuse, found_or,
}
use social_ai_backend.Transaction.{Weather, db_call, in_tx}
use social_ai_backend.Message.Names.{conversation_id, message_id}
use social_ai_backend.Message.Tables.{
  Db, MessageRow, user_exists, insert_conversation, insert_members, seq_in, find_client_id,
  insert_message, update_conversation, update_members, max_content_len,
}

-- The package's errors, and `db_error` for any error of the database.
pub data Error : Type 0 where
  cannot_message_self invalid_content user_not_found key_reused conversation_not_found bad_cursor
        db_error :
      Error

abbrev pub Result {ℓ} : Type ℓ → Type ℓ
Result A = Attempt Error A

abbrev pub call : Weather → ℕ → Result (Unit {0})
call = db_call db_error

-- The message that `SendMessage` returns.
pub record Message : Type 0 where
  pub message_id : Text
  pub conversation_id : Text
  pub seq : ℕ
  pub sender_id : Text
  pub receiver_id : Text
  pub content : Text
  pub created_at : ℕ

-- `*string`: nil for the empty text.
abbrev pub optional : Text → Option Text
optional [] = none
optional (c ∷ s) = some (c ∷ s)

-- The two members are inserted in the order of their ids.
abbrev pub lesser : Text → Text → Text
lesser a b = if text_lt b a then b else a

abbrev pub greater : Text → Text → Text
greater a b = if text_lt b a then a else b

-- The members of a conversation that was created just now.
unfoldable pub ensure_members : Weather → Text → Text → Text → ℕ → Db → Result Db
ensure_members w id sender receiver zero db = ok db
ensure_members w id sender receiver (suc n) db = do
  call w 3
  found_or db_error (insert_members id (lesser sender receiver) (greater sender receiver) db)

-- The message stored under the request's key, if there is a key and such a message.
unfoldable pub previous : Weather → Text → Text → Option Text → Db → Result (Option MessageRow)
previous w id sender none db = ok none
previous w id sender (some key) db = do call w 5; ok (find_client_id id sender key db.messages)

-- What follows the look for an earlier message: replay it, refuse it, or store a new one. The
-- result is the tables with the message's number and time, and whether it is a replay.
unfoldable pub store :
    Weather
    → ℕ
    → Text
    → Text
    → Text
    → Option Text
    → ℕ
    → Option MessageRow
    → Db
    → Result (Db × (ℕ × ℕ × Bool))
store w now id sender content key last_seq (some prev) db =
    if not (text_eq prev.content content)
    then err key_reused
    else ok (db, (prev.seq, prev.created_at, true))
store w now id sender content key last_seq none db = do
  call w 6
  stored ← found_or db_error (
      insert_message
        (record {
          conversation_id = id;
          seq = last_seq + 1;
          sender_id = sender;
          content = content;
          created_at = now;
          client_msg_id = key;
        })
        db)
  call w 7
  call w 8
  ok (
    update_members id now sender (last_seq + 1) (update_conversation id (last_seq + 1) now stored),
    (last_seq + 1, now, false),
  )

-- The body of the transaction.
unfoldable pub send_tx :
    Weather → ℕ → Text → Text → Text → Option Text → Db → Result (Db × (ℕ × ℕ × Bool))
unfolding ensure_members previous store
send_tx w now sender receiver content key db = do
  let id = conversation_id sender receiver
  call w 2
  let (created, affected) = insert_conversation id db
  ready ← ensure_members w id sender receiver affected created
  call w 4
  last_seq ← found_or db_error (seq_in id ready.conversations)
  prev ← previous w id sender key ready
  store w now id sender content key last_seq prev ready

-- The checks before the transaction.
unfoldable pub admit : Weather → Text → Text → Text → Db → Result (Unit {0})
admit w sender receiver content db = do
  refuse (text_eq sender receiver) cannot_message_self
  refuse (is_empty content || ltb max_content_len (length content)) invalid_content
  call w 0
  refuse (not (user_exists receiver db)) user_not_found

abbrev pub to_message : Text → Text → Text → ℕ × ℕ × Bool → Message × Bool
to_message sender receiver content (seq, at, replayed) = (
  record {
    message_id = message_id (conversation_id sender receiver) seq;
    conversation_id = conversation_id sender receiver;
    seq = seq;
    sender_id = sender;
    receiver_id = receiver;
    content = content;
    created_at = at;
  },
  replayed,
)

-- The end of `SendMessage`: the transaction's result as the caller sees it.
unfoldable pub reply :
    Text → Text → Text → Db × Result (ℕ × ℕ × Bool) → Db × Result (Message × Bool)
reply sender receiver content (db, ok r) = (db, ok (to_message sender receiver content r))
reply sender receiver content (db, err e) = (db, err e)

-- After the checks.
unfoldable pub deliver :
    Weather → ℕ → Text → Text → Text → Text → Db → Result (Unit {0}) → Db × Result (Message × Bool)
deliver w now sender receiver content client_msg_id db (err e) = (db, err e)
deliver w now sender receiver content client_msg_id db (ok _) =
    reply sender receiver content
      (in_tx db_error w db (send_tx w now sender receiver content (optional client_msg_id) db))

-- The message and whether it is a replay, with the tables after the request.
unfoldable pub send_message :
    Weather → ℕ → Text → Text → Text → Text → Db → Db × Result (Message × Bool)
send_message w now sender receiver content client_msg_id db =
    deliver w now sender receiver content client_msg_id db (admit w sender receiver content db)
