-- ===== src/Message/Tables.antt =====
-- The tables that the message service owns (migrations/0001_init.sql) and the SQL statements of
-- services/message/service/message.go, one function for each. Contents are sequences of
-- characters, times are numbers of microseconds, and rows stand in the order of their insertion.
use social_ai_backend.Common.{
  ℕ, Bool, false, not, ◌&&◌, ◌||◌, Option, none, some, List, [], ◌∷◌, ◌++◌, leb, ◌==◌,
  if◌then◌else◌, any, map, length, Text, text_eq,
}

pub record ConversationRow : Type 0 where
  pub conversation_id : Text
  pub last_seq : ℕ
  pub last_message_at : Option ℕ

pub record MemberRow : Type 0 where
  pub conversation_id : Text
  pub user_id : Text
  pub last_read_seq : ℕ
  pub last_message_at : Option ℕ

pub record MessageRow : Type 0 where
  pub conversation_id : Text
  pub seq : ℕ
  pub sender_id : Text
  pub content : Text
  pub created_at : ℕ
  pub client_msg_id : Option Text

-- `users` belongs to the auth service and is only read.
pub record Db : Type 0 where
  pub users : List Text
  pub conversations : List ConversationRow
  pub members : List MemberRow
  pub messages : List MessageRow

-- SELECT EXISTS (SELECT 1 FROM users WHERE user_id = $1)
abbrev pub user_exists : Text → Db → Bool
user_exists u db = any (text_eq u) db.users

abbrev pub is_conversation : Text → ConversationRow → Bool
is_conversation id c = text_eq id c.conversation_id

abbrev pub is_member : Text → Text → MemberRow → Bool
is_member id u m = text_eq id m.conversation_id && text_eq u m.user_id

-- INSERT INTO conversations (conversation_id) VALUES ($1) ON CONFLICT DO NOTHING, with the number
-- of rows affected.
unfoldable pub insert_conversation : Text → Db → Db × ℕ
insert_conversation id db = if any (is_conversation id) db.conversations then (db, 0) else (
  record db {
    conversations =
        db.conversations
        ++ record { conversation_id = id; last_seq = 0; last_message_at = none } ∷ [];
  },
  1,
)

-- INSERT INTO conversation_members (conversation_id, user_id) VALUES ($1, $2), ($1, $3), refused
-- (`none`) by the reference to `conversations` or by a row with the same primary key.
unfoldable pub insert_members : Text → Text → Text → Db → Option Db
insert_members id a b db =
    if not (any (is_conversation id) db.conversations)
      || any (is_member id a) db.members
      || any (is_member id b) db.members
      || text_eq a b
    then none
    else some (record db {
      members =
          db.members
          ++ record { conversation_id = id; user_id = a; last_read_seq = 0; last_message_at = none }
            ∷ record {
              conversation_id = id;
              user_id = b;
              last_read_seq = 0;
              last_message_at = none;
            }
            ∷ [];
    })

-- SELECT last_seq FROM conversations WHERE conversation_id = $1
unfoldable pub seq_in : Text → List ConversationRow → Option ℕ
seq_in id [] = none
seq_in id (c ∷ cs) = if is_conversation id c then some c.last_seq else seq_in id cs

-- The unique index messages_client_msg_id at a key that is not NULL.
abbrev pub has_client_id : Text → Text → Text → MessageRow → Bool
has_client_id id sender key m =
    text_eq id m.conversation_id
    && text_eq sender m.sender_id
    && elim m.client_msg_id [ none ↦ false | some k ↦ text_eq key k ]

-- SELECT seq, content, created_at FROM messages
-- WHERE conversation_id = $1 AND sender_id = $2 AND client_msg_id = $3
unfoldable pub find_client_id : Text → Text → Text → List MessageRow → Option MessageRow
find_client_id id sender key [] = none
find_client_id id sender key (m ∷ ms) =
    if has_client_id id sender key m then some m else find_client_id id sender key ms

abbrev pub has_seq : Text → ℕ → MessageRow → Bool
has_seq id seq m = text_eq id m.conversation_id && seq == m.seq

-- A row of the unique index that an insertion with this key would meet.
abbrev pub key_taken : Text → Text → Option Text → List MessageRow → Bool
key_taken id sender none ms = false
key_taken id sender (some key) ms = any (has_client_id id sender key) ms

abbrev pub max_content_len : ℕ
max_content_len = 4000

-- INSERT INTO messages (...) VALUES (...), refused (`none`) by the reference to `conversations`, by the
-- primary key, by the unique index or by the check on the content's length.
unfoldable pub insert_message : MessageRow → Db → Option Db
insert_message row db =
    if not (any (is_conversation row.conversation_id) db.conversations)
      || any (has_seq row.conversation_id row.seq) db.messages
      || key_taken row.conversation_id row.sender_id row.client_msg_id db.messages
      || not (leb 1 (length row.content) && leb (length row.content) max_content_len)
    then none
    else some (record db { messages = db.messages ++ row ∷ [] })

abbrev pub set_last : Text → ℕ → ℕ → ConversationRow → ConversationRow
set_last id seq at c =
    if is_conversation id c then record c { last_seq = seq; last_message_at = some at } else c

-- UPDATE conversations SET last_seq = $2, last_message_at = $3 WHERE conversation_id = $1
unfoldable pub update_conversation : Text → ℕ → ℕ → Db → Db
update_conversation id seq at db = record db {
  conversations = map (set_last id seq at) db.conversations;
}

abbrev pub set_inbox : Text → ℕ → Text → ℕ → MemberRow → MemberRow
set_inbox id at sender seq m =
    if text_eq id m.conversation_id
    then record m {
      last_message_at = some at;
      last_read_seq = if text_eq sender m.user_id then seq else m.last_read_seq;
    }
    else m

-- UPDATE conversation_members SET last_message_at = $2,
--   last_read_seq = CASE WHEN user_id = $3 THEN $4 ELSE last_read_seq END
-- WHERE conversation_id = $1
unfoldable pub update_members : Text → ℕ → Text → ℕ → Db → Db
update_members id at sender seq db = record db {
  members = map (set_inbox id at sender seq) db.members;
}
