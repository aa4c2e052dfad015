-- ===== src/Chat/Groups.antt =====
-- The private groups of the staff, in app/services/conversation_service.py: who is in them is the
-- rows of conversation_participants.
use balt_oil.Chat.Defs.{
  Chats, Conversation, ConversationParticipant, by_system, custom, enrol, insert_conversation,
  is_member, is_row_of, is_staff_group, joined, live_conversation, of_role, staff_group,
  system_uuid,
}
use balt_oil.Chat.Access.{is_private_group}
use balt_oil.Service.{
  Result, Role, TokenUser, forbidden, is_admin, is_staff, not_found, ok, or_raise, raise_if, ◌>>=◌,
  ◌>>◌,
}
use balt_oil.Table.{put}
use balt_oil.Text.{Text, codes, strip}
use balt_oil.Prelude.{
  Bool, List, Option, [], any, false, if◌then◌else◌, keep, none, not, or_default, some, ℕ, ◌&&◌,
  ◌++◌, ◌==◌, ◌||◌, ◌∷◌,
}

abbrev pub has_id : ℕ → List ℕ → Bool
has_id a = any (λ b. b == a)

-- `set(ids) | {a}`
abbrev pub with_id : ℕ → List ℕ → List ℕ
with_id a ids = if has_id a ids then ids else a ∷ ids

abbrev pub id_set : List ℕ → List ℕ
id_set [] = []
id_set (a ∷ ids) = with_id a (id_set ids)

-- `contacts.get(uid)["role"] or "manager"`, by what auth_service answers.
abbrev pub role_on : (ℕ → Option Role) → ℕ → Role
role_on contacts a = or_default (contacts a) Role.manager

abbrev pub rows_for : ℕ → (ℕ → ConversationParticipant) → List ℕ → List ConversationParticipant
rows_for conv_id row [] = []
rows_for conv_id row (a ∷ ids) = row a ∷ rows_for conv_id row ids

-- The text that is left without the spaces at its ends, or "Группа".
abbrev title_or_group : Text → Text
title_or_group [] = codes "Группа"
title_or_group (c ∷ title) = c ∷ title

abbrev pub founder_row : ℕ → ℕ → TokenUser → (ℕ → Option Role) → ℕ → ConversationParticipant
founder_row now id actor contacts a = record (joined id a (role_on contacts a)) {
  last_read_at = if a == actor.id then some now else none;
}

abbrev pub private_group : ℕ → TokenUser → Text → Conversation
private_group code actor title = record {
  kind = staff_group;
  client_id = none;
  driver_id = none;
  order_id = none;
  group_code = some (custom code);
  title = some (title_or_group (strip title));
  created_by_id = actor.id;
  created_by_role = of_role actor.role;
  is_archived = false;
}

-- `code` is the random part of the group's code.
unfoldable pub create_private_group :
    ℕ → ℕ → ℕ → (ℕ → Option Role) → TokenUser → Text → List ℕ → Chats → Result (Chats × ℕ)
unfolding insert_conversation
create_private_group now id code contacts actor title member_ids s = do
  raise_if (not (is_staff actor.role)) forbidden
  s' ← insert_conversation id (private_group code actor title) s
  ok (
    record s' {
      participants =
          s'.participants
          ++ rows_for id (founder_row now id actor contacts) (with_id actor.id (id_set member_ids));
    },
    id,
  )

unfoldable pub load_private_group : ℕ → Chats → Result Conversation
unfolding is_private_group
load_private_group k s = do
  conv ← or_raise (live_conversation k s) not_found
  raise_if (not (is_private_group conv)) not_found
  ok conv

-- The rows of other conversations, and those of the users who stay.
abbrev pub stays : ℕ → List ℕ → ConversationParticipant → Bool
stays k wanted p = not (p.conversation_id == k) || has_id p.user_id wanted

abbrev pub missing_ids : ℕ → Chats → List ℕ → List ℕ
missing_ids k s wanted = keep (λ a. not (is_member k a s)) wanted

abbrev pub wanted_ids : Conversation → TokenUser → List ℕ → List ℕ
wanted_ids conv actor member_ids = with_id conv.created_by_id (with_id actor.id (id_set member_ids))

unfoldable pub set_private_group_members :
    (ℕ → Option Role) → TokenUser → ℕ → List ℕ → Chats → Result Chats
unfolding load_private_group
set_private_group_members contacts actor k member_ids s = do
  conv ← load_private_group k s
  raise_if (not (is_staff actor.role && is_member k actor.id s)) forbidden
  let wanted = wanted_ids conv actor member_ids
  ok (record s {
    participants =
        keep (stays k wanted) s.participants
        ++ rows_for k (λ a. joined k a (role_on contacts a)) (missing_ids k s wanted);
  })

abbrev pub may_manage_group : Conversation → TokenUser → Bool
may_manage_group conv actor =
    is_admin actor.role || (is_staff actor.role && conv.created_by_id == actor.id)

unfoldable pub check_group_manage_access : Conversation → TokenUser → Result (Unit {0})
check_group_manage_access conv actor = raise_if (not (may_manage_group conv actor)) forbidden

unfoldable pub load_manageable_group : ℕ → TokenUser → Chats → Result Conversation
unfolding is_private_group check_group_manage_access
load_manageable_group k actor s = do
  conv ← or_raise (live_conversation k s) not_found
  raise_if (not (is_staff_group conv.kind)) forbidden
  raise_if (not (is_private_group conv)) forbidden
  check_group_manage_access conv actor
  ok conv

-- `_post_system_message_raw`, with the identifier and the time of the new message.
unfoldable pub post_system_message_raw : ℕ → ℕ → ℕ → Text → Chats → Chats
post_system_message_raw now message_id k text s = record s {
  messages =
      put message_id
        (record {
          conversation_id = k;
          sender_id = system_uuid;
          sender_role = by_system;
          sender_name = codes "Система";
          msg_type = codes "system";
          text = text;
          is_archived = false;
          created_at = now;
          reply_to_id = none;
          is_pinned = false;
        })
        s.messages;
}

-- `full_name or "Участник"`
abbrev member_name : Option Text → Text
member_name (some (c ∷ name)) = c ∷ name
member_name _ = codes "Участник"

-- `card` is the contact that auth_service has for the user: the name and the role, either of which
-- may be missing.
unfoldable pub add_group_member :
    ℕ → ℕ → TokenUser → ℕ → ℕ → Option (Option Text × Option Role) → Chats → Result Chats
unfolding load_manageable_group post_system_message_raw
add_group_member now message_id actor k user_id card s = do
  conv ← load_manageable_group k actor s
  if is_member k user_id s then ok s else do
    contact ← or_raise card not_found
    let s' = enrol (joined k user_id (or_default contact.1 Role.manager)) s
    ok (
        post_system_message_raw now message_id k
          (member_name contact.0 ++ codes " добавлен(а) в чат") s')

abbrev pub remove_first :
    (ConversationParticipant → Bool) → List ConversationParticipant → List ConversationParticipant
remove_first p [] = []
remove_first p (x ∷ xs) = if p x then xs else x ∷ remove_first p xs

unfoldable pub remove_group_member : ℕ → ℕ → TokenUser → ℕ → ℕ → Option Text → Chats → Result Chats
unfolding load_manageable_group post_system_message_raw
remove_group_member now message_id actor k user_id full_name s = do
  conv ← load_manageable_group k actor s
  raise_if (user_id == conv.created_by_id) forbidden
  raise_if (not (is_member k user_id s)) not_found
  let s' = record s { participants = remove_first (is_row_of k user_id) s.participants }
  ok (
      post_system_message_raw now message_id k (member_name full_name ++ codes " удалён(а) из чата")
        s')
