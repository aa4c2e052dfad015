-- ===== src/Chat/Messages.antt =====
-- app/services/message_service.py, with the handlers `get_messages` and `forward_message` of
-- app/routers/conversations.py. The files of attachments are left out.
use balt_oil.Chat.Defs.{
  Chats, Conversation, ConversationParticipant, Message, enrol, is_member, joined,
  live_conversation, of_role,
}
use balt_oil.Chat.Access.{conversation_visibility, open_conversation}
use balt_oil.Chat.Receipts.{
  MessageStatus, compute_message_status, get_peer_watermarks, touch_delivered,
}
use balt_oil.Chat.Groups.{post_system_message_raw, with_id}
use balt_oil.Service.{
  Result, TokenUser, forbidden, is_client, is_staff, not_found, ok, or_raise, raise_if, validation,
  ◌>>=◌, ◌>>◌,
}
use balt_oil.Table.{Table, lookup, put}
use balt_oil.Text.{Text, strip}
use balt_oil.Prelude.{
  Bool, List, Option, [], false, if◌then◌else◌, is_some, keep, length, ltb, none, not, some, true,
  ℕ, ◌&&◌, ◌==◌, ◌∷◌,
}

abbrev pub msg_rate_limit : ℕ
msg_rate_limit = 60

-- With the answer of INCR on the counter of the user and the conversation.
unfoldable pub check_message_rate : ℕ → Result (Unit {0})
check_message_rate n = raise_if (ltb msg_rate_limit n) forbidden

abbrev pub is_message_of : ℕ → Message → Bool
is_message_of k msg = msg.conversation_id == k && not msg.is_archived

-- The message with the identifier, if it is one of the conversation and not deleted.
abbrev pub message_in : ℕ → Option Message → Option Message
message_in k none = none
message_in k (some msg) = if is_message_of k msg then some msg else none

-- An answer to a message that is not in the conversation is no answer.
abbrev pub reply_in : ℕ → Option ℕ → Chats → Option ℕ
reply_in k none s = none
reply_in k (some m) s = if is_some (message_in k (lookup m s.messages)) then some m else none

-- A message to send: its text, its type and the message that it answers.
pub record Draft : Type 0 where
  pub text : Text
  pub msg_type : Text
  pub reply_to_id : Option ℕ

abbrev pub enroll_staff : ℕ → ℕ → TokenUser → Chats → Chats
enroll_staff now k actor s =
    if is_staff actor.role && not (is_member k actor.id s)
    then enrol (record (joined k actor.id actor.role) { last_read_at = some now }) s
    else s

abbrev users_in : ℕ → List ConversationParticipant → List ℕ
users_in k [] = []
users_in k (p ∷ ps) = if p.conversation_id == k then p.user_id ∷ users_in k ps else users_in k ps

abbrev add_party : Option ℕ → List ℕ → List ℕ
add_party none ids = ids
add_party (some a) ids = with_id a ids

-- Whom notification_service is told of: the participants, the client and the driver.
abbrev pub recipients : ℕ → Conversation → Chats → List ℕ
recipients k conv s =
    add_party conv.client_id (add_party conv.driver_id (users_in k s.participants))

-- `blocked` is the answer of auth_service about the messenger of the user, `n` that of the counter
-- of messages; the answer has the recipients.
unfoldable pub send_message :
    ℕ → ℕ → Bool → ℕ → Text → ℕ → Draft → TokenUser → Chats → Result (Chats × List ℕ)
unfolding open_conversation check_message_rate
send_message now message_id blocked n sender_name k draft actor s = do
  conv ← open_conversation k actor s
  raise_if (is_client actor.role && blocked) forbidden
  check_message_rate n
  let s' = enroll_staff now k actor s
  let msg : Message = record {
    conversation_id = k;
    sender_id = actor.id;
    sender_role = of_role actor.role;
    sender_name = sender_name;
    msg_type = draft.msg_type;
    text = draft.text;
    is_archived = false;
    created_at = now;
    reply_to_id = reply_in k draft.reply_to_id s;
    is_pinned = false;
  }
  ok (record s' { messages = put message_id msg s'.messages }, recipients k conv s')

unfoldable pub post_system_message : ℕ → ℕ → ℕ → Text → Chats → Result Chats
unfolding post_system_message_raw
post_system_message now message_id k text s = do
  conv ← or_raise (live_conversation k s) not_found
  ok (post_system_message_raw now message_id k text s)

abbrev with_status : ℕ → Option ℕ × Option ℕ → Table Message → List (ℕ × Option MessageStatus)
with_status actor_id marks [] = []
with_status actor_id marks ((m, msg) ∷ ms) =
    (m, compute_message_status msg actor_id marks.0 marks.1) ∷ with_status actor_id marks ms

-- The handler: the messages with their ticks, of which it returns a page.
unfoldable pub get_messages :
    ℕ → ℕ → TokenUser → Chats → Result (Chats × List (ℕ × Option MessageStatus))
unfolding open_conversation touch_delivered get_peer_watermarks compute_message_status
get_messages now k actor s = do
  conv ← open_conversation k actor s
  s' ← touch_delivered now k actor s
  let marks = get_peer_watermarks k actor.id s'
  ok (s', with_status actor.id marks (keep (λ row. is_message_of k row.1) s.messages))

unfoldable pub set_message_pinned : ℕ → ℕ → TokenUser → Bool → Chats → Result Chats
unfolding open_conversation
set_message_pinned k m actor is_pinned s = do
  conv ← open_conversation k actor s
  msg ← or_raise (message_in k (lookup m s.messages)) not_found
  ok (record s { messages = put m (record msg { is_pinned = is_pinned }) s.messages })

abbrev pub live_message : Option Message → Option Message
live_message none = none
live_message (some msg) = if msg.is_archived then none else some msg

-- The conversation of the message is not looked at.
unfoldable pub delete_message : ℕ → TokenUser → Chats → Result Chats
delete_message m actor s = do
  msg ← or_raise (live_message (lookup m s.messages)) not_found
  raise_if (not (msg.sender_id == actor.id) && not (is_staff actor.role)) forbidden
  ok (record s { messages = put m (record msg { is_archived = true }) s.messages })

abbrev pub min_search_len : ℕ
min_search_len = 2

-- A conversation that is there and that the list shows.
abbrev pub shows : TokenUser → Option Conversation → Bool → Bool
shows actor none member = false
shows actor (some conv) member = conversation_visibility actor conv member

abbrev pub is_hit : TokenUser → Chats → (Text → Bool) → Message → Bool
is_hit actor s fits msg =
    not msg.is_archived
    && shows actor (live_conversation msg.conversation_id s)
        (is_member msg.conversation_id actor.id s)
    && fits msg.text

-- All hits, of which the handler returns the last ones; `like` is the case-insensitive search of
-- PostgreSQL for a text in a text.
unfoldable pub search_messages :
    (Text → Text → Bool) → Text → TokenUser → Chats → Result (Table Message)
unfolding conversation_visibility
search_messages like query actor s = do
  raise_if (ltb (length (strip query)) min_search_len) validation
  ok (keep (λ row. is_hit actor s (like (strip query)) row.1) s.messages)

-- `file_lost`: the message has an attachment whose file is not there.
unfoldable pub forward_message :
    ℕ → ℕ → Bool → Bool → ℕ → Text → ℕ → ℕ → ℕ → TokenUser → Chats → Result (Chats × List ℕ)
unfolding open_conversation send_message
forward_message now message_id file_lost blocked n sender_name source m k actor s = do
  conv ← open_conversation source actor s
  msg ← or_raise (message_in source (lookup m s.messages)) not_found
  raise_if file_lost not_found
  send_message now message_id blocked n sender_name k
      (record { text = msg.text; msg_type = msg.msg_type; reply_to_id = none }) actor s
