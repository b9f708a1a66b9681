-- ===== src/Examples/Messaging.antt =====
-- Runs of the message service on small tables.
use social_ai_backend.Common.{
  subst, take, keep, length, ltb, ok, err, ◌≡◌, refl, Bool, true, [], ◌∷◌, some, arith, text_eq,
  text_lt, ◌==◌, Text, ◌⊎◌,
}
use social_ai_backend.Common.Int.{pos, negsuc}
use social_ai_backend.Transaction.{Weather, calm, in_tx}
use social_ai_backend.Message.Names.{
  conversation_id, conversation_id_comm, conversation_id_inj, other_participant,
  other_participant-conversation_id, HasNoColon,
}
use social_ai_backend.Message.Tables.{
  Db, insert_conversation, insert_members, insert_message, update_conversation, update_members,
  seq_in, find_client_id,
}
use social_ai_backend.Message.Send.{
  Error, db_error, Message, send_message, send_tx, ensure_members, previous, store, admit, reply,
  deliver,
}
use social_ai_backend.Message.Invariant.{IsValid, up_to}
use social_ai_backend.Message.Page.{MessagePage, get_messages, limit_of}
use social_ai_backend.Message.Window.{numbers, get_messages_after}
use social_ai_backend.Message.Valid.{send_message-IsValid}
use social_ai_backend.Message.Once.{exactly_once}
use social_ai_backend.Message.Read.{
  mark_read, mark_read_forward, mark_read_all, mark_rows, NotBack, AllRead,
}

abbrev alice : Text
alice = 97 ∷ []

abbrev bob : Text
bob = 98 ∷ []

abbrev hello : Text
hello = 104 ∷ 105 ∷ []

abbrev key : Text
key = 49 ∷ []

abbrev no_messages : Db
no_messages = record { users = alice ∷ bob ∷ []; conversations = []; members = []; messages = [] }

-- The commit's answer is lost, and the commit took effect.
abbrev rainy : Weather
rainy = record { fails = λ n. n == 9; commit_lost = true }

no_messages-IsValid : IsValid no_messages
no_messages-IsValid = record { gap_free = tt; owned = tt; read_within = tt }

abbrev one_message : Db
one_message = (send_message rainy 5 bob alice hello key no_messages).0

one_message-IsValid : IsValid one_message
one_message-IsValid =
    send_message-IsValid rainy 5 bob alice hello key no_messages no_messages-IsValid

one_message_last : seq_in (conversation_id alice bob) one_message.conversations ≡ some 1
unfolding send_message send_tx ensure_members previous store in_tx admit reply deliver
    insert_conversation insert_members insert_message update_conversation update_members seq_in
    find_client_id conversation_id text_eq text_lt
one_message_last = refl

send_message-IsValid_example : IsValid (send_message rainy 6 alice bob hello [] one_message).0
send_message-IsValid_example =
    send_message-IsValid rainy 6 alice bob hello [] one_message one_message-IsValid

exactly_once_example :
    ((e : Error) × (send_message rainy 5 bob alice hello key no_messages ≡ (no_messages, err e)))
    ⊎ ((db' : Db) × (m : Message) × (send_message calm 9 bob alice hello key db'
          ≡ (db', ok (m, true)))
        × (((b : Bool) × (send_message rainy 5 bob alice hello key no_messages ≡ (db', ok (m, b))))
            ⊎ (send_message rainy 5 bob alice hello key no_messages ≡ (db', err db_error))))
exactly_once_example = exactly_once rainy 5 9 bob alice hello key no_messages refl

mark_read_forward_example :
    NotBack one_message.members (mark_read rainy alice bob (negsuc 3) one_message).0.members
    × IsValid (mark_read rainy alice bob (negsuc 3) one_message).0
mark_read_forward_example =
    mark_read_forward rainy alice bob (negsuc 3) one_message one_message-IsValid

mark_read_all_example :
    AllRead
      (conversation_id alice bob)
      alice
      1
      (mark_read calm alice bob (pos 99) one_message).0.members
mark_read_all_example =
    mark_read_all calm alice bob 99 1 one_message one_message-IsValid refl one_message_last
      (omega arith)

alice-HasNoColon : HasNoColon alice
alice-HasNoColon = refl

bob-HasNoColon : HasNoColon bob
bob-HasNoColon = refl

other_participant-conversation_id_example :
    (other_participant (conversation_id alice bob) alice ≡ bob)
    × (other_participant (conversation_id alice bob) bob ≡ alice)
other_participant-conversation_id_example =
    other_participant-conversation_id alice bob alice-HasNoColon bob-HasNoColon

conversation_id_inj_example : ((alice ≡ bob) × (bob ≡ alice)) ⊎ ((alice ≡ alice) × (bob ≡ bob))
conversation_id_inj_example =
    conversation_id_inj alice bob bob alice alice-HasNoColon bob-HasNoColon bob-HasNoColon
      alice-HasNoColon (conversation_id_comm alice bob)

one_message_run : (mark_read calm alice bob (pos 99) one_message).1 ≡ ok tt
unfolding mark_read mark_rows send_message send_tx ensure_members previous store in_tx admit reply
    deliver insert_conversation insert_members insert_message update_conversation update_members
    seq_in find_client_id conversation_id text_eq text_lt
one_message_run = refl

abbrev two_messages : Db
two_messages = (send_message calm 6 alice bob hello [] one_message).0

two_messages-IsValid : IsValid two_messages
two_messages-IsValid =
    send_message-IsValid calm 6 alice bob hello [] one_message one_message-IsValid

two_messages_last : seq_in (conversation_id alice bob) two_messages.conversations ≡ some 2
unfolding send_message send_tx ensure_members previous store in_tx admit reply deliver
    insert_conversation insert_members insert_message update_conversation update_members seq_in
    find_client_id conversation_id text_eq text_lt
two_messages_last = refl

get_messages_after_example :
    (page : MessagePage) × (get_messages calm bob alice (pos 0) (pos 1) (negsuc 0) two_messages
      ≡ ok page)
    × (numbers page.messages ≡ take (limit_of (negsuc 0) 50 200) (keep (ltb 1) (up_to 2)))
    × (page.has_more ≡ ltb (limit_of (negsuc 0) 50 200) (length (keep (ltb 1) (up_to 2))))
get_messages_after_example =
    get_messages_after calm bob alice (pos 0) 0 (negsuc 0) 2 two_messages two_messages-IsValid refl
      refl
      (subst (λ id. seq_in id two_messages.conversations ≡ some 2) (conversation_id_comm alice bob)
        two_messages_last)
