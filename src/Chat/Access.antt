-- ===== src/Chat/Access.antt =====
-- Who may open a conversation (`_check_access`), and which ones the lists and the search show
-- (`conversation_visibility`), in app/services/conversation_service.py.
use balt_oil.Chat.Defs.{
  Chats, Conversation, GroupCode, accounting, another_code, client_accountant, client_driver_order,
  client_manager, custom, direct, is_client_accountant, is_client_driver_order, is_client_manager,
  is_direct, is_member, is_staff_group, live_conversation, staff_group, work,
}
use balt_oil.Service.{
  Result, Role, TokenUser, forbidden, is_admin, is_staff, is_worker, not_found, ok, or_raise,
  raise_if, ◌>>=◌, ◌>>◌,
}
use balt_oil.Prelude.{Bool, Option, false, none, not, same_id, some, true, ℕ, ◌&&◌, ◌||◌}

abbrev pub is_custom : Option GroupCode → Bool
is_custom (some (custom n)) = true
is_custom _ = false

unfoldable pub is_private_group : Conversation → Bool
is_private_group conv = is_staff_group conv.kind && is_custom conv.group_code

-- STAFF_GROUP_ACCESS
abbrev pub staff_group_access : Role → GroupCode → Bool
staff_group_access role work = is_worker role
staff_group_access role accounting = is_staff role
staff_group_access role _ = false

abbrev pub may_open_group : Option GroupCode → TokenUser → Bool → Bool
may_open_group (some (custom n)) actor member = is_admin actor.role || member
may_open_group (some work) actor member = staff_group_access actor.role work
may_open_group (some accounting) actor member = staff_group_access actor.role accounting
may_open_group (some (another_code n)) actor member = is_staff actor.role
may_open_group none actor member = is_staff actor.role

abbrev pub is_party : Conversation → TokenUser → Bool
is_party conv actor = same_id conv.client_id actor.id || same_id conv.driver_id actor.id

abbrev pub may_open : Conversation → TokenUser → Bool → Bool
may_open conv actor member = elim conv.kind [
  | direct ↦ is_party conv actor
  | staff_group ↦ may_open_group conv.group_code actor member
  | client_manager ↦ is_staff actor.role || same_id conv.client_id actor.id
  | client_accountant ↦ is_staff actor.role || same_id conv.client_id actor.id
  | client_driver_order ↦ is_staff actor.role || is_party conv actor
]

-- With whether the user has a row among the participants.
unfoldable pub check_access : Conversation → TokenUser → Bool → Result (Unit {0})
check_access conv actor member = raise_if (not (may_open conv actor member)) forbidden

-- The conversation that a handler loads and opens to the user.
unfoldable pub open_conversation : ℕ → TokenUser → Chats → Result Conversation
open_conversation k actor s = do
  conv ← or_raise (live_conversation k s) not_found
  check_access conv actor (is_member k actor.id s)
  ok conv

-- `group_code.in_(STAFF_GROUP_ACCESS.get(role))`, and DRIVER_STAFF_GROUPS for a driver.
abbrev pub sees_group : Role → Option GroupCode → Bool
sees_group role none = false
sees_group role (some code) = staff_group_access role code

abbrev pub sees_by_role : TokenUser → Conversation → Bool
sees_by_role actor conv = elim actor.role [
  | Role.client ↦
      ((is_client_manager conv.kind || is_client_accountant conv.kind)
        && same_id conv.client_id actor.id)
      || (is_client_driver_order conv.kind
          && same_id conv.client_id actor.id
          && not conv.is_archived)
  | Role.driver ↦
      (is_staff_group conv.kind && sees_group Role.driver conv.group_code)
      || (is_client_driver_order conv.kind
          && same_id conv.driver_id actor.id
          && not conv.is_archived)
  | role ↦
      (is_staff_group conv.kind && sees_group role conv.group_code)
      || is_client_manager conv.kind
      || is_client_accountant conv.kind
      || (is_client_driver_order conv.kind && not conv.is_archived)
]

unfoldable pub conversation_visibility : TokenUser → Conversation → Bool → Bool
conversation_visibility actor conv member =
    sees_by_role actor conv
    || (is_direct conv.kind && is_party conv actor)
    || (is_staff_group conv.kind && is_custom conv.group_code && (is_admin actor.role || member))
