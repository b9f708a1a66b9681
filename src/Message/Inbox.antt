-- ===== src/Message/Inbox.antt =====
-- services/message/service/message.go: `ListConversations`.
use social_ai_backend.Common.{
  ℕ, ◌+◌, ◌-◌, Bool, not, ◌&&◌, ◌||◌, Option, none, some, List, [], ◌∷◌, ltb, ◌==◌, if◌then◌else◌,
  find_first, keep, length, take, get_elem?, Text, text_eq, text_lt, is_empty, ok, ◌>>=◌, ◌>>◌,
}
use social_ai_backend.Common.Int.{ℤ, ◌-ℤ◌, pos}
use social_ai_backend.Common.Sort.{sort}
use social_ai_backend.Pagecursor.{Format, encode, decode}
use social_ai_backend.Transaction.{Weather}
use social_ai_backend.Message.Names.{other_participant}
use social_ai_backend.Message.Tables.{Db, MemberRow, is_conversation, has_seq}
use social_ai_backend.Message.Send.{Result, call, bad_cursor}
use social_ai_backend.Message.Page.{limit_of}

-- One row of an inbox.
pub record Conversation : Type 0 where
  pub conversation_id : Text
  pub with_user_id : Text
  pub last_seq : ℕ
  pub last_message : Text
  pub last_sender_id : Text
  pub last_message_at : ℕ
  pub unread : ℤ

-- `NextCursor` is empty on the last page.
pub record InboxPage : Type 0 where
  pub conversations : List Conversation
  pub next_cursor : Text

pub record InboxCursor : Type 0 where
  pub t : ℕ
  pub id : Text

-- The joins of one membership with its conversation and the last message, and the columns that are selected.
unfoldable pub joined : Text → Db → MemberRow → Option Conversation
joined user db m = elim (find_first (is_conversation m.conversation_id) db.conversations) [
  | none ↦ none
  | some c ↦ elim (find_first (has_seq c.conversation_id c.last_seq) db.messages) [
    | none ↦ none
    | some msg ↦ elim m.last_message_at [
      | none ↦ none
      | some at ↦ some (record {
        conversation_id = m.conversation_id;
        with_user_id = other_participant m.conversation_id user;
        last_seq = c.last_seq;
        last_message = msg.content;
        last_sender_id = msg.sender_id;
        last_message_at = at;
        unread = pos c.last_seq -ℤ pos m.last_read_seq;
      })
    ]
  ]
]

abbrev pub all_joined : Text → Db → List MemberRow → List Conversation
all_joined user db [] = []
all_joined user db (m ∷ ms) = elim (joined user db m) [
  | none ↦ all_joined user db ms
  | some c ↦ c ∷ all_joined user db ms
]

-- ORDER BY m.last_message_at DESC, m.conversation_id DESC
unfoldable pub more_recent : Conversation → Conversation → Bool
more_recent a b =
    if not (a.last_message_at == b.last_message_at)
    then ltb b.last_message_at a.last_message_at
    else text_lt b.conversation_id a.conversation_id

-- $2 IS NULL OR (m.last_message_at, m.conversation_id) < ($2, $3)
unfoldable pub is_behind : InboxCursor → Conversation → Bool
is_behind cur c =
    is_empty cur.id
    || (ltb c.last_message_at cur.t
        || (c.last_message_at == cur.t && text_lt c.conversation_id cur.id))

-- The query; the rows of the join are those of `userId`.
unfoldable pub select_inbox : Text → InboxCursor → ℕ → Db → List Conversation
unfolding joined more_recent is_behind
select_inbox user cur limit db = take limit (
    sort more_recent
      (keep (is_behind cur) (all_joined user db (keep (λ m. text_eq user m.user_id) db.members))))

-- The last loop: the rows up to the limit, and the cursor of the last of them if there are more.
unfoldable pub inbox_page : Format InboxCursor → ℕ → List Conversation → InboxPage
inbox_page f limit convs = record {
  conversations = take limit convs;
  next_cursor =
      if ltb limit (length convs)
      then (elim (get_elem? convs (limit - 1)) [
        | none ↦ []
        | some c ↦ encode f (record { t = c.last_message_at; id = c.conversation_id })
      ])
      else [];
}

unfoldable pub list_conversations :
    Format InboxCursor → Weather → Text → ℤ → Text → Db → Result InboxPage
unfolding select_inbox inbox_page
list_conversations f w user limit cursor db = do
  cur ← decode f bad_cursor cursor (record { t = 0; id = [] })
  let n = limit_of limit 20 100
  call w 0
  ok (inbox_page f n (select_inbox user cur (n + 1) db))
