-- ===== src/Chat/Ensure.antt =====
-- The conversations that are opened on demand, in app/services/conversation_service.py. Each returns
-- the state and the identifier of the conversation; `id` is the identifier of a new one.
use balt_oil.Service.{
  Result, Role, TokenUser, bad_request, forbidden, is_client, is_staff, is_worker, not_found, ok,
  or_raise, raise_if, ◌>>=◌, ◌>>◌, scalar_one_or_none,
}
use balt_oil.Chat.Defs.{
  AuthorRole, Chats, Conversation, ConversationKind, GroupCode, accounting, another_code, by_system,
  by_user, client_accountant, client_driver_order, client_manager, direct, insert_conversation,
  is_client_accountant, is_client_driver_order, is_client_manager, is_direct, is_staff_group,
  same_code, staff_group, system_uuid, work,
}
use balt_oil.Table.{map_rows, put}
use balt_oil.Text.{Text, codes}
use balt_oil.Prelude.{
  Bool, Option, [], false, if◌then◌else◌, keep, none, not, same_id, some, true, ℕ, ◌&&◌, ◌++◌, ◌==◌,
  ◌||◌, ◌∷◌,
}

abbrev pub conversation : ConversationKind → ℕ → AuthorRole → Conversation
conversation kind creator role = record {
  kind = kind;
  client_id = none;
  driver_id = none;
  order_id = none;
  group_code = none;
  title = none;
  created_by_id = creator;
  created_by_role = role;
  is_archived = false;
}

-- The row that the search finds, or a new one.
abbrev pub or_insert : Option (ℕ × Conversation) → ℕ → Conversation → Chats → Result (Chats × ℕ)
or_insert (some (k, conv)) id new s = ok (s, k)
or_insert none id new s = insert_conversation id new s >>= λ (s' : Chats). ok (s', id)

abbrev pub matching : (Conversation → Bool) → Chats → Result (Option (ℕ × Conversation))
matching p s = scalar_one_or_none (keep (λ row. p row.1) s.conversations)

abbrev pub is_manager_chat_of : ℕ → Conversation → Bool
is_manager_chat_of client_id conv =
    is_client_manager conv.kind && same_id conv.client_id client_id && not conv.is_archived

unfoldable pub ensure_client_manager : ℕ → ℕ → Chats → Result (Chats × ℕ)
unfolding insert_conversation
ensure_client_manager id client_id s = do
  found ← matching (is_manager_chat_of client_id) s
  or_insert found id
      (record (conversation client_manager system_uuid by_system) { client_id = some client_id }) s

abbrev pub is_accountant_chat_of : ℕ → Conversation → Bool
is_accountant_chat_of client_id conv =
    is_client_accountant conv.kind && same_id conv.client_id client_id && not conv.is_archived

unfoldable pub ensure_client_accountant : ℕ → ℕ → Chats → Result (Chats × ℕ)
unfolding insert_conversation
ensure_client_accountant id client_id s = do
  found ← matching (is_accountant_chat_of client_id) s
  or_insert found id
      (record (conversation client_accountant system_uuid by_system) {
        client_id = some client_id;
        title = some (codes "Бухгалтерия");
      })
      s

abbrev pub is_order_chat_of : ℕ → Conversation → Bool
is_order_chat_of order_id conv = is_client_driver_order conv.kind && same_id conv.order_id order_id

-- The title of an order's conversation, from the number of the order.
abbrev pub order_title : Text → Option Text
order_title [] = none
order_title (c ∷ number) = some (codes "Заявка " ++ (c ∷ number))

abbrev pub order_chat : ℕ → ℕ → ℕ → Text → Conversation
order_chat order_id client_id driver_id order_number =
    record (conversation client_driver_order system_uuid by_system) {
      client_id = some client_id;
      driver_id = some driver_id;
      order_id = some order_id;
      title = order_title order_number;
    }

-- An archived conversation of the order is found too, and stays archived.
unfoldable pub ensure_client_driver_order : ℕ → ℕ → ℕ → ℕ → Text → Chats → Result (Chats × ℕ)
unfolding insert_conversation
ensure_client_driver_order id order_id client_id driver_id order_number s = do
  found ← matching (is_order_chat_of order_id) s
  elim found [
    | some (k, conv) ↦ ok (
      record s {
        conversations = put k (record conv { driver_id = some driver_id }) s.conversations;
      },
      k,
    )
    | none ↦ or_insert none id (order_chat order_id client_id driver_id order_number) s
  ]

abbrev pub is_direct_of : ℕ → ℕ → Conversation → Bool
is_direct_of a b conv =
    is_direct conv.kind
    && not conv.is_archived
    && ((same_id conv.client_id a && same_id conv.driver_id b)
        || (same_id conv.client_id b && same_id conv.driver_id a))

abbrev pub direct_chat_for : ℕ → ℕ → Conversation
direct_chat_for initiator_id target_id = record (conversation direct initiator_id by_user) {
  client_id = some initiator_id;
  driver_id = some target_id;
}

unfoldable pub ensure_direct : ℕ → ℕ → ℕ → Chats → Result (Chats × ℕ)
unfolding insert_conversation
ensure_direct id initiator_id target_id s = do
  raise_if (initiator_id == target_id) forbidden
  found ← matching (is_direct_of initiator_id target_id) s
  or_insert found id (direct_chat_for initiator_id target_id) s

abbrev pub group_title : GroupCode → Text
group_title work = codes "Работа"
group_title accounting = codes "Бухгалтерия"
group_title code = []

abbrev pub is_group_of : GroupCode → Conversation → Bool
is_group_of code conv = is_staff_group conv.kind && same_code conv.group_code (some code)

abbrev pub group_chat : GroupCode → Conversation
group_chat code = record (conversation staff_group system_uuid by_system) {
  group_code = some code;
  title = some (group_title code);
}

unfoldable pub ensure_staff_group : ℕ → GroupCode → Chats → Result Chats
unfolding insert_conversation
ensure_staff_group id code s = do
  found ← matching (is_group_of code) s
  elim found [
    | some (k, conv) ↦ ok (record s {
      conversations =
          put k (record conv { is_archived = false; title = some (group_title code) })
            s.conversations;
    })
    | none ↦ insert_conversation id (group_chat code) s
  ]

-- A group with a code that is neither set up here nor private; NULL passes no test.
abbrev pub is_stale : Conversation → Bool
is_stale conv =
    is_staff_group conv.kind && elim conv.group_code [ some (another_code n) ↦ true | _ ↦ false ]

abbrev pub archive_stale : Conversation → Conversation
archive_stale conv = if is_stale conv then record conv { is_archived = true } else conv

-- At every start of the service; the identifiers are for the groups that are not there yet.
unfoldable pub ensure_staff_groups : ℕ → ℕ → Chats → Result Chats
unfolding ensure_staff_group
ensure_staff_groups id id' s = do
  s' ← ensure_staff_group id work s
  s'' ← ensure_staff_group id' accounting s'
  ok (record s'' { conversations = map_rows (λ k conv. archive_stale conv) s''.conversations })

-- `start_by_phone` of app/routers/conversations.py: the card that auth_service finds has the
-- identifier, the role and whether the messenger is blocked.
pub record Card : Type 0 where
  pub id : ℕ
  pub role : Role
  pub messenger_blocked : Bool

unfoldable pub start_by_phone : ℕ → Bool → Option Card → TokenUser → Chats → Result (Chats × ℕ)
unfolding ensure_direct
start_by_phone id blocked card actor s = do
  raise_if (is_client actor.role && blocked) forbidden
  target ← or_raise card not_found
  raise_if (target.messenger_blocked && is_client target.role && not (is_staff actor.role))
      not_found
  raise_if (target.id == actor.id) bad_request
  ensure_direct id actor.id target.id s

-- `start_with_user`, with the role on the card of the user.
unfoldable pub start_with_user : ℕ → ℕ → Option Role → TokenUser → Chats → Result (Chats × ℕ)
unfolding ensure_direct
start_with_user id user_id card actor s = do
  raise_if (not (is_worker actor.role)) forbidden
  raise_if (user_id == actor.id) bad_request
  role ← or_raise card not_found
  raise_if (not (is_worker role)) forbidden
  ensure_direct id actor.id user_id s
