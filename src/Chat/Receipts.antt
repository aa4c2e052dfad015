-- ===== src/Chat/Receipts.antt =====
-- What the rows of the participants are for besides the private groups: pins, the marks of what was
-- read and delivered, the unread counters and the ticks, in app/services/conversation_service.py.
use balt_oil.Service.{Result, TokenUser, is_client, ok, ◌>>=◌}
use balt_oil.Chat.Ensure.{ensure_client_manager}
use balt_oil.Chat.Defs.{
  Chats, Conversation, ConversationParticipant, Message, change_row, enrol, insert_participant,
  is_member, is_row_of, joined, participant_row, update_rows,
}
use balt_oil.Chat.Access.{conversation_visibility, open_conversation}
use balt_oil.Table.{Table, count_rows}
use balt_oil.Prelude.{
  Bool, List, Option, [], any, false, find, if◌then◌else◌, is_some, keep, leb, ltb, map, max, none,
  not, some, ℕ, ◌&&◌, ◌==◌, ◌∷◌,
}

unfoldable pub auto_enroll : ℕ → ℕ → TokenUser → Chats → Result Chats
auto_enroll now k actor s = do
  row ← participant_row k actor.id s
  if is_some row
      then ok s
      else ok (enrol (record (joined k actor.id actor.role) { last_read_at = some now }) s)

unfoldable pub get_conversation : ℕ → ℕ → TokenUser → Chats → Result (Chats × Conversation)
unfolding open_conversation auto_enroll
get_conversation now k actor s = do
  conv ← open_conversation k actor s
  s' ← auto_enroll now k actor s
  ok (s', conv)

unfoldable pub set_pinned : ℕ → TokenUser → Bool → Chats → Result Chats
unfolding open_conversation
set_pinned k actor is_pinned s = do
  conv ← open_conversation k actor s
  row ← participant_row k actor.id s
  if is_some row
      then ok (change_row k actor.id (λ p. record p { is_pinned = is_pinned }) s)
      else ok (enrol (record (joined k actor.id actor.role) { is_pinned = is_pinned }) s)

-- What was read was delivered; a later mark of delivery is kept.
abbrev pub later : ℕ → Option ℕ → Option ℕ
later now none = some now
later now (some t) = if ltb t now then some now else some t

unfoldable pub mark_read : ℕ → ℕ → TokenUser → Chats → Result Chats
unfolding insert_participant
mark_read now k actor s = do
  row ← participant_row k actor.id s
  if is_some row
      then ok (
          change_row k actor.id
            (λ p. record p {
              last_read_at = some now;
              last_delivered_at = later now p.last_delivered_at;
            })
            s)
      else insert_participant
          (record (joined k actor.id actor.role) {
            last_read_at = some now;
            last_delivered_at = some now;
          })
          s

unfoldable pub touch_delivered : ℕ → ℕ → TokenUser → Chats → Result Chats
unfolding insert_participant
touch_delivered now k actor s = do
  row ← participant_row k actor.id s
  if is_some row
      then ok (change_row k actor.id (λ p. record p { last_delivered_at = some now }) s)
      else insert_participant
          (record (joined k actor.id actor.role) { last_delivered_at = some now }) s

unfoldable pub touch_delivered_bulk : ℕ → List ℕ → TokenUser → Chats → Chats
touch_delivered_bulk now conv_ids actor s = record s {
  participants =
      update_rows (λ p. any (λ k. p.conversation_id == k) conv_ids && p.user_id == actor.id)
        (λ p. record p { last_delivered_at = some now }) s.participants;
}

-- `max` of a column, where NULL does not count.
abbrev pub max_mark : Option ℕ → Option ℕ → Option ℕ
max_mark none b = b
max_mark (some a) none = some a
max_mark (some a) (some b) = some (max a b)

abbrev pub max_of : (ConversationParticipant → Option ℕ) → List ConversationParticipant → Option ℕ
max_of column [] = none
max_of column (p ∷ ps) = max_mark (column p) (max_of column ps)

abbrev pub is_peer_of : ℕ → ℕ → ConversationParticipant → Bool
is_peer_of k actor_id p = p.conversation_id == k && not (p.user_id == actor_id)

-- The last marks of reading and of delivery among the others.
unfoldable pub get_peer_watermarks : ℕ → ℕ → Chats → Option ℕ × Option ℕ
get_peer_watermarks k actor_id s =
    let peers = keep (is_peer_of k actor_id) s.participants in
    (max_of (λ p. p.last_read_at) peers, max_of (λ p. p.last_delivered_at) peers)

pub data MessageStatus : Type 0 where
  sent delivered read : MessageStatus

-- A mark that is set and not before the time.
abbrev pub reaches : Option ℕ → ℕ → Bool
reaches none time = false
reaches (some mark) time = leb time mark

unfoldable pub compute_message_status : Message → ℕ → Option ℕ → Option ℕ → Option MessageStatus
compute_message_status msg actor_id peer_read_at peer_delivered_at =
    if not (msg.sender_id == actor_id)
    then none
    else if reaches peer_read_at msg.created_at
    then some read
    else if reaches peer_delivered_at msg.created_at
    then some delivered
    else some sent

-- The mark in the row that the outer join meets; without a row, or without a mark, all is unread.
abbrev pub read_mark : Option ConversationParticipant → Option ℕ
read_mark none = none
read_mark (some p) = p.last_read_at

abbrev pub is_unread : ℕ → ℕ → Option ℕ → Message → Bool
is_unread k actor_id mark msg =
    msg.conversation_id == k
    && not msg.is_archived
    && not (msg.sender_id == actor_id)
    && not (reaches mark msg.created_at)

unfoldable pub unread_count : ℕ → ℕ → Chats → ℕ
unread_count k actor_id s =
    let row = find (is_row_of k actor_id) s.participants in
    count_rows (is_unread k actor_id (read_mark row)) s.messages

abbrev pub is_listed : TokenUser → Chats → ℕ × Conversation → Bool
is_listed actor s row =
    not row.1.is_archived && conversation_visibility actor row.1 (is_member row.0 actor.id s)

abbrev pub keys_of {ℓ} : {A : Type ℓ} → Table A → List ℕ
keys_of [] = []
keys_of ((k, a) ∷ t) = k ∷ keys_of t

-- A client whose conversation with the managers is missing gets it first.
abbrev pub with_own_chat : ℕ → TokenUser → Chats → Result Chats
with_own_chat id actor s =
    if is_client actor.role
    then (ensure_client_manager id actor.id s >>= λ (done : Chats × ℕ). ok done.0)
    else ok s

-- The conversations of the list with their unread counters, before they are sorted.
unfoldable pub list_conversations : ℕ → ℕ → TokenUser → Chats → Result (Chats × List (ℕ × ℕ))
unfolding ensure_client_manager conversation_visibility unread_count touch_delivered_bulk
list_conversations now id actor s = do
  s' ← with_own_chat id actor s
  let listed = keys_of (keep (is_listed actor s') s'.conversations)
  ok (touch_delivered_bulk now listed actor s', map (λ k. (k, unread_count k actor.id s')) listed)
