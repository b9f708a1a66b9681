-- ===== src/Message/Page.antt =====
-- services/message/service/message.go: `GetMessages`, with shared/pagecursor/pagecursor.go's `Limit`.
use social_ai_backend.Common.{
  ℕ, zero, suc, ◌+◌, ◌-◌, ◌^◌, Bool, false, ◌&&◌, List, [], ◌∷◌, ◌++◌, ltb, if◌then◌else◌, keep,
  map, length, take, Text, text_eq, ok, ◌>>◌,
}
use social_ai_backend.Common.Int.{ℤ, pos, negsuc}
use social_ai_backend.Common.Sort.{sort}
use social_ai_backend.Transaction.{Weather}
use social_ai_backend.Message.Names.{conversation_id, message_id}
use social_ai_backend.Message.Tables.{Db, MemberRow, MessageRow, is_member}
use social_ai_backend.Message.Send.{Result, call, Message}

-- `pagecursor.Limit`.
unfoldable pub limit_of : ℤ → ℕ → ℕ → ℕ
limit_of (negsuc n) default max = default
limit_of (pos zero) default max = default
limit_of (pos (suc n)) default max = if ltb max (suc n) then max else suc n

pub record MessagePage : Type 0 where
  pub conversation_id : Text
  pub messages : List Message
  pub next_before_seq : ℕ
  pub has_more : Bool
  pub last_read_seq : ℕ

-- SELECT ... WHERE conversation_id = $1 AND seq > $2 ORDER BY seq LIMIT $3
unfoldable pub select_after : Text → ℕ → ℕ → List MessageRow → List MessageRow
select_after id seq limit ms =
    take limit
      (sort (λ a b. ltb a.seq b.seq) (keep (λ m. text_eq id m.conversation_id && ltb seq m.seq) ms))

-- SELECT ... WHERE conversation_id = $1 AND seq < $2 ORDER BY seq DESC LIMIT $3
unfoldable pub select_before : Text → ℕ → ℕ → List MessageRow → List MessageRow
select_before id seq limit ms =
    take limit
      (sort (λ a b. ltb b.seq a.seq) (keep (λ m. text_eq id m.conversation_id && ltb m.seq seq) ms))

-- SELECT last_read_seq FROM conversation_members WHERE conversation_id = $1 AND user_id = $2, and 0
-- where there is no row.
unfoldable pub read_seq : Text → Text → List MemberRow → ℕ
read_seq id user [] = 0
read_seq id user (m ∷ ms) = if is_member id user m then m.last_read_seq else read_seq id user ms

-- A row as a message.
abbrev pub scanned : Text → Text → MessageRow → Message
scanned user with_user m = record {
  message_id = message_id (conversation_id user with_user) m.seq;
  conversation_id = conversation_id user with_user;
  seq = m.seq;
  sender_id = m.sender_id;
  receiver_id = if text_eq m.sender_id user then with_user else user;
  content = m.content;
  created_at = m.created_at;
}

-- The loop that turns a window around.
abbrev pub turned {ℓ} : {A : Type ℓ} → List A → List A
turned [] = []
turned (x ∷ xs) = turned xs ++ x ∷ []

abbrev pub first_seq : List Message → ℕ
first_seq [] = 0
first_seq (m ∷ ms) = m.seq

-- A window of messages after a number, which is cut where there are more than `limit`.
unfoldable pub page_after : Text → ℕ → List Message → MessagePage
page_after id limit msgs = record {
  conversation_id = id;
  messages = if ltb limit (length msgs) then take limit msgs else msgs;
  next_before_seq = 0;
  has_more = ltb limit (length msgs);
  last_read_seq = 0;
}

-- A window of messages before a number, newest first.
unfoldable pub page_before : Text → ℕ → List Message → MessagePage
page_before id limit msgs =
    let window = turned (if ltb limit (length msgs) then take limit msgs else msgs) in
    record {
      conversation_id = id;
      messages = window;
      next_before_seq = if ltb limit (length msgs) then first_seq window else 0;
      has_more = false;
      last_read_seq = 0;
    }

-- `beforeSeq`, or the largest number.
abbrev pub before_or_max : ℤ → ℕ
before_or_max (pos (suc n)) = suc n
before_or_max _ = 2 ^ 63 - 1

-- The query that the cursors ask for, and its page.
unfoldable pub window_of : Text → Text → ℤ → ℤ → ℕ → Db → MessagePage
window_of user with_user before (pos (suc after)) limit db =
    let id = conversation_id user with_user in
    page_after id limit
      (map (scanned user with_user) (select_after id (suc after) (limit + 1) db.messages))
window_of user with_user before _ limit db =
    let id = conversation_id user with_user in
    page_before id limit (
      map (scanned user with_user)
        (select_before id (before_or_max before) (limit + 1) db.messages))

unfoldable pub get_messages : Weather → Text → Text → ℤ → ℤ → ℤ → Db → Result MessagePage
get_messages w user with_user before after limit db = do
  call w 0
  call w 1
  ok (record (window_of user with_user before after (limit_of limit 50 200) db) {
    last_read_seq = read_seq (conversation_id user with_user) with_user db.members;
  })
