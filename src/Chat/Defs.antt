-- ===== src/Chat/Defs.antt =====
-- Rows of app/models/conversation.py and app/models/message.py of chat_service, and its database.
-- The clock counts microseconds; titles, names and messages are texts. A row of a participant is
-- known by its conversation and its user; its own identifier is never read. The time of the last
-- change of a conversation, by which the lists are sorted, and its picture are left out.
use balt_oil.Text.{Text}
use balt_oil.Table.{Table, any_row, lookup, put}
use balt_oil.Service.{Result, Role, internal_error, ok, raise_if, ◌>>◌, scalar_one_or_none}
use balt_oil.Prelude.{
  Bool, List, Option, [], any, false, is_some, none, not, same_id, some, true, ℕ, ◌&&◌, ◌++◌, ◌==◌,
  ◌∷◌, if◌then◌else◌, keep,
}

pub data ConversationKind : Type 0 where
  client_manager client_accountant client_driver_order staff_group direct : ConversationKind

-- The texts of `group_code`, as the code tells them apart: the two groups that are set up at the
-- start, those with the prefix "custom-" and all others.
pub data GroupCode : Type 0 where
  work accounting : GroupCode
  custom another_code : ℕ → GroupCode

-- `created_by_role`, `sender_role`: the role of a token, or one of the texts "system" and "user".
pub data AuthorRole : Type 0 where
  by_system by_user : AuthorRole
  of_role : Role → AuthorRole

pub record Conversation : Type 0 where
  pub kind : ConversationKind
  pub client_id : Option ℕ
  pub driver_id : Option ℕ
  pub order_id : Option ℕ
  pub group_code : Option GroupCode
  pub title : Option Text
  pub created_by_id : ℕ
  pub created_by_role : AuthorRole
  pub is_archived : Bool

pub record ConversationParticipant : Type 0 where
  pub conversation_id : ℕ
  pub user_id : ℕ
  pub user_role : Role
  pub last_read_at : Option ℕ
  pub last_delivered_at : Option ℕ
  pub is_pinned : Bool

pub record Message : Type 0 where
  pub conversation_id : ℕ
  pub sender_id : ℕ
  pub sender_role : AuthorRole
  pub sender_name : Text
  pub msg_type : Text
  pub text : Text
  pub is_archived : Bool
  pub created_at : ℕ
  pub reply_to_id : Option ℕ
  pub is_pinned : Bool

pub record Chats : Type 0 where
  pub conversations : Table Conversation
  pub participants : List ConversationParticipant
  pub messages : Table Message

-- The zero UUID.
abbrev pub system_uuid : ℕ
system_uuid = 0

abbrev pub is_client_manager : ConversationKind → Bool
is_client_manager client_manager = true
is_client_manager _ = false

abbrev pub is_client_accountant : ConversationKind → Bool
is_client_accountant client_accountant = true
is_client_accountant _ = false

abbrev pub is_client_driver_order : ConversationKind → Bool
is_client_driver_order client_driver_order = true
is_client_driver_order _ = false

abbrev pub is_staff_group : ConversationKind → Bool
is_staff_group staff_group = true
is_staff_group _ = false

abbrev pub is_direct : ConversationKind → Bool
is_direct direct = true
is_direct _ = false

-- `select(Conversation).where(id == …, is_archived == False)`
abbrev pub unless_archived : Option Conversation → Option Conversation
unless_archived none = none
unless_archived (some conv) = elim conv.is_archived [ true ↦ none | false ↦ some conv ]

abbrev pub live_conversation : ℕ → Chats → Option Conversation
live_conversation k s = unless_archived (lookup k s.conversations)

abbrev pub is_row_of : ℕ → ℕ → ConversationParticipant → Bool
is_row_of conv_id user_id p = p.conversation_id == conv_id && p.user_id == user_id

-- `user_id in {p.user_id for p in conv.participants}`
abbrev pub is_member : ℕ → ℕ → Chats → Bool
is_member conv_id user_id s = any (is_row_of conv_id user_id) s.participants

abbrev pub same_code : Option GroupCode → Option GroupCode → Bool
same_code (some work) (some work) = true
same_code (some accounting) (some accounting) = true
same_code (some (custom a)) (some (custom b)) = a == b
same_code (some (another_code a)) (some (another_code b)) = a == b
same_code _ _ = false

abbrev pub same_known : Option ℕ → Option ℕ → Bool
same_known (some a) other = same_id other a
same_known none other = false

-- The unique indexes of migration 0003, which count the archived rows too; NULL meets nothing.
abbrev pub clashes : Conversation → ℕ → Conversation → Bool
clashes new k old = elim new.kind [
  | client_manager ↦ is_client_manager old.kind && same_known new.client_id old.client_id
  | client_driver_order ↦ is_client_driver_order old.kind && same_known new.order_id old.order_id
  | staff_group ↦ is_staff_group old.kind && same_code new.group_code old.group_code
  | client_accountant ↦ false
  | direct ↦ false
]

-- INSERT of a conversation under a new identifier.
unfoldable pub insert_conversation : ℕ → Conversation → Chats → Result Chats
insert_conversation id conv s =
    raise_if (any_row (clashes conv) s.conversations) internal_error
    >> ok (record s { conversations = put id conv s.conversations })

-- INSERT of a participant of a conversation that is there.
abbrev pub enrol : ConversationParticipant → Chats → Chats
enrol p s = record s { participants = s.participants ++ (p ∷ []) }

-- INSERT of a participant where nobody looked: the foreign key wants the conversation.
unfoldable pub insert_participant : ConversationParticipant → Chats → Result Chats
insert_participant p s =
    raise_if (not (is_some (lookup p.conversation_id s.conversations))) internal_error
    >> ok (enrol p s)

-- The row of a user in a conversation.
abbrev pub participant_row : ℕ → ℕ → Chats → Result (Option ConversationParticipant)
participant_row conv_id user_id s =
    scalar_one_or_none (keep (is_row_of conv_id user_id) s.participants)

abbrev pub update_rows :
    (ConversationParticipant → Bool)
    → (ConversationParticipant → ConversationParticipant)
    → List ConversationParticipant
    → List ConversationParticipant
update_rows p f [] = []
update_rows p f (x ∷ xs) = (if p x then f x else x) ∷ update_rows p f xs

abbrev pub change_row : ℕ → ℕ → (ConversationParticipant → ConversationParticipant) → Chats → Chats
change_row conv_id user_id f s = record s {
  participants = update_rows (is_row_of conv_id user_id) f s.participants;
}

abbrev pub joined : ℕ → ℕ → Role → ConversationParticipant
joined conv_id user_id role = record {
  conversation_id = conv_id;
  user_id = user_id;
  user_role = role;
  last_read_at = none;
  last_delivered_at = none;
  is_pinned = false;
}
