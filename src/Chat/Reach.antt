-- ===== src/Chat/Reach.antt =====
-- All requests of chat_service in any order, and who is in a private group because of them.
use balt_oil.Chat.Rows.{Grows, Grows-same, rows}
use balt_oil.Chat.Entries.{
  Asked, Opened, forward_message-Grows, get_conversation-Grows, get_messages-Grows, mark_read-Grows,
  send_message-Grows, set_message_pinned-Grows, set_pinned-Grows,
}
use balt_oil.Chat.GroupRows.{
  Managed, add_group_member-Grows, create_private_group-Grows, remove_group_member-Grows,
  set_private_group_members-Grows,
}
use balt_oil.Chat.Quiet.{
  archive_conversation-Quiet, clear_conversation-Quiet, delete_conversation-Grows,
  delete_message-Quiet, ensure_client_accountant-Quiet, ensure_client_driver_order-Quiet,
  ensure_client_manager-Quiet, ensure_direct-Quiet, ensure_staff_groups-Quiet,
  list_conversations-Grows, post_system_message-Quiet, without-Grows,
}
use balt_oil.Chat.Defs.{Chats, Conversation, is_member}
use balt_oil.Chat.Ensure.{
  ensure_client_accountant, ensure_client_driver_order, ensure_client_manager, ensure_direct,
  ensure_staff_groups,
}
use balt_oil.Chat.Groups.{
  add_group_member, create_private_group, remove_group_member, set_private_group_members,
}
use balt_oil.Chat.Receipts.{
  MessageStatus, get_conversation, list_conversations, mark_read, set_pinned,
}
use balt_oil.Chat.Messages.{
  Draft, delete_message, forward_message, get_messages, post_system_message, send_message,
  set_message_pinned,
}
use balt_oil.Chat.Removal.{
  archive_conversation, clear_conversation, delete_conversation, handle_order_deleted,
  is_chat_of_order,
}
use balt_oil.Table.{lookup}
use balt_oil.Service.{Post_ok, Role, TokenUser, is_staff, ok}
use balt_oil.Text.{Text}
use balt_oil.Prelude.{
  Bool, List, Option, any, arith, false, inl, inr, none, true, ℕ, ◌==◌, ◌≡◌, ◌≤◌,
}

-- One request or event that ends well. A new group has an identifier that no row has.
pub data ChatStep (s s' : Chats) : Type 0 where
  manager_chat :
      (id client_id k : ℕ) → ensure_client_manager id client_id s ≡ ok (s', k) → ChatStep s s'
  accountant_chat :
      (id client_id k : ℕ) → ensure_client_accountant id client_id s ≡ ok (s', k) → ChatStep s s'
  driver_chat :
      (id order_id client_id driver_id k : ℕ) (order_number : Text)
      → ensure_client_driver_order id order_id client_id driver_id order_number s ≡ ok (s', k)
      → ChatStep s s'
  direct_chat :
      (id initiator_id target_id k : ℕ)
      → ensure_direct id initiator_id target_id s ≡ ok (s', k)
      → ChatStep s s'
  started : (id id' : ℕ) → ensure_staff_groups id id' s ≡ ok s' → ChatStep s s'
  grouped :
      (now id code k : ℕ) (contacts : ℕ → Option Role) (actor : TokenUser) (title : Text)
      (member_ids : List ℕ)
      → any (λ p. p.conversation_id == id) s.participants ≡ false
      → lookup id s.conversations ≡ none
      → create_private_group now id code contacts actor title member_ids s ≡ ok (s', k)
      → ChatStep s s'
  regrouped :
      (contacts : ℕ → Option Role) (actor : TokenUser) (k : ℕ) (member_ids : List ℕ)
      → set_private_group_members contacts actor k member_ids s ≡ ok s'
      → ChatStep s s'
  added :
      (now message_id : ℕ) (actor : TokenUser) (k user_id : ℕ)
      (card : Option (Option Text × Option Role))
      → add_group_member now message_id actor k user_id card s ≡ ok s'
      → ChatStep s s'
  removed :
      (now message_id : ℕ) (actor : TokenUser) (k user_id : ℕ) (full_name : Option Text)
      → remove_group_member now message_id actor k user_id full_name s ≡ ok s'
      → ChatStep s s'
  opened :
      (now k : ℕ) (actor : TokenUser) (conv : Conversation)
      → get_conversation now k actor s ≡ ok (s', conv)
      → ChatStep s s'
  listed :
      (now id : ℕ) (actor : TokenUser) (rows_shown : List (ℕ × ℕ))
      → list_conversations now id actor s ≡ ok (s', rows_shown)
      → ChatStep s s'
  pinned :
      (k : ℕ) (actor : TokenUser) (is_pinned : Bool)
      → set_pinned k actor is_pinned s ≡ ok s'
      → ChatStep s s'
  marked_read : (now k : ℕ) (actor : TokenUser) → mark_read now k actor s ≡ ok s' → ChatStep s s'
  loaded :
      (now k : ℕ) (actor : TokenUser) (page : List (ℕ × Option MessageStatus))
      → get_messages now k actor s ≡ ok (s', page)
      → ChatStep s s'
  sent_ :
      (now message_id : ℕ) (blocked : Bool) (n : ℕ) (sender_name : Text) (k : ℕ) (draft : Draft)
      (actor : TokenUser) (told : List ℕ)
      → send_message now message_id blocked n sender_name k draft actor s ≡ ok (s', told)
      → ChatStep s s'
  forwarded :
      (now message_id : ℕ) (file_lost blocked : Bool) (n : ℕ) (sender_name : Text) (source m k : ℕ)
      (actor : TokenUser) (told : List ℕ)
      → forward_message now message_id file_lost blocked n sender_name source m k actor s
        ≡ ok (s', told)
      → ChatStep s s'
  announced :
      (now message_id k : ℕ) (text : Text)
      → post_system_message now message_id k text s ≡ ok s'
      → ChatStep s s'
  message_pinned :
      (k m : ℕ) (actor : TokenUser) (is_pinned : Bool)
      → set_message_pinned k m actor is_pinned s ≡ ok s'
      → ChatStep s s'
  message_deleted : (m : ℕ) (actor : TokenUser) → delete_message m actor s ≡ ok s' → ChatStep s s'
  archived : (k : ℕ) (actor : TokenUser) → archive_conversation k actor s ≡ ok s' → ChatStep s s'
  deleted : (k : ℕ) (actor : TokenUser) → delete_conversation k actor s ≡ ok s' → ChatStep s s'
  cleared : (k : ℕ) (actor : TokenUser) → clear_conversation k actor s ≡ ok s' → ChatStep s s'
  order_gone : (order_id : ℕ) → s' ≡ handle_order_deleted order_id s → ChatStep s s'

-- Why a step may have given a user a first row in a conversation.
abbrev pub Cause : ℕ → ℕ → (s s' : Chats) → ChatStep s s' → Type 0
Cause c u s s' (grouped now id code k contacts actor title member_ids fresh new e) = id ≡ c
Cause c u s s' (regrouped contacts actor k member_ids e) =
    (k ≡ c) × (is_staff actor.role ≡ true) × (is_member k actor.id s ≡ true)
Cause c u s s' (added now message_id actor k user_id card e) =
    (k ≡ c) × (user_id ≡ u) × Managed k actor s
Cause c u s s' (opened now k actor conv e) = Opened c u k actor s
Cause c u s s' (pinned k actor is_pinned e) = Opened c u k actor s
Cause c u s s' (marked_read now k actor e) = Asked c u k actor
Cause c u s s' (loaded now k actor page e) = Opened c u k actor s
Cause c u s s' (sent_ now message_id blocked n sender_name k draft actor told e) =
    Opened c u k actor s
Cause c u s s' (forwarded now message_id file_lost blocked n sender_name source m k actor told e) =
    Opened c u k actor s
Cause c u s s' step = ⊥

module _ (c u : ℕ) (s s' : Chats) where
  quiet : {Reason : Type 0} → s'.participants ≡ s.participants → Grows c u Reason s s'
  quiet same = Grows-same c u s s' same

  pub step-Grows : (step : ChatStep s s') → Grows c u (Cause c u s s' step) s s'
  unfolding handle_order_deleted
  step-Grows (manager_chat id client_id k e) =
      quiet (Post_ok (ensure_client_manager-Quiet id client_id s) e)
  step-Grows (accountant_chat id client_id k e) =
      quiet (Post_ok (ensure_client_accountant-Quiet id client_id s) e)
  step-Grows (driver_chat id order_id client_id driver_id k order_number e) =
      quiet (
        Post_ok (ensure_client_driver_order-Quiet id order_id client_id driver_id order_number s) e)
  step-Grows (direct_chat id a b k e) = quiet (Post_ok (ensure_direct-Quiet id a b s) e)
  step-Grows (started id id' e) = quiet (Post_ok (ensure_staff_groups-Quiet id id' s) e)
  step-Grows (grouped now id code k contacts actor title member_ids fresh new e) =
      Post_ok (create_private_group-Grows c u id actor s now code contacts title member_ids fresh) e
  step-Grows (regrouped contacts actor k member_ids e) =
      Post_ok (set_private_group_members-Grows c u k actor s contacts member_ids) e
  step-Grows (added now message_id actor k user_id card e) =
      Post_ok (add_group_member-Grows c u k actor s now message_id user_id card) e
  step-Grows (removed now message_id actor k user_id full_name e) =
      Post_ok (remove_group_member-Grows c u k actor s now message_id user_id full_name) e
  step-Grows (opened now k actor conv e) = Post_ok (get_conversation-Grows c u now k actor s) e
  step-Grows (listed now id actor rows_shown e) =
      Post_ok (list_conversations-Grows c u s now id actor) e
  step-Grows (pinned k actor is_pinned e) = Post_ok (set_pinned-Grows c u 0 k actor s is_pinned) e
  step-Grows (marked_read now k actor e) = Post_ok (mark_read-Grows c u now k actor s) e
  step-Grows (loaded now k actor page e) = Post_ok (get_messages-Grows c u now k actor s) e
  step-Grows (sent_ now message_id blocked n sender_name k draft actor told e) =
      Post_ok (send_message-Grows c u now k actor s message_id blocked n sender_name draft) e
  step-Grows (forwarded now message_id file_lost blocked n sender_name source m k actor told e) =
      Post_ok
        (forward_message-Grows c u now k actor s message_id file_lost blocked n sender_name source
          m)
        e
  step-Grows (announced now message_id k text e) =
      quiet (Post_ok (post_system_message-Quiet now message_id k text s) e)
  step-Grows (message_pinned k m actor is_pinned e) =
      Post_ok (set_message_pinned-Grows c u 0 k actor s m is_pinned) e
  step-Grows (message_deleted m actor e) = quiet (Post_ok (delete_message-Quiet m actor s) e)
  step-Grows (archived k actor e) = quiet (Post_ok (archive_conversation-Quiet k actor s) e)
  step-Grows (deleted k actor e) = Post_ok (delete_conversation-Grows c u s k actor) e
  step-Grows (cleared k actor e) = quiet (Post_ok (clear_conversation-Quiet k actor s) e)
  step-Grows (order_gone order_id e) = rw e (without-Grows c u s (is_chat_of_order order_id s))

pub data ChatReach (s : Chats) : Chats → Type 0 where
  start : ChatReach s s
  then_ : {t t' : Chats} → ChatReach s t → ChatStep t t' → ChatReach s t'

-- Whatever is asked of the service in whatever order, no user ever has a second row in a
-- conversation, so that the search for the one row of a user never meets two.
pub ChatReach-OneRow : (c u : ℕ) {s s' : Chats} → rows c u s ≤ 1 → ChatReach s s' → rows c u s' ≤ 1
ChatReach-OneRow c u one start = one
ChatReach-OneRow c u {s = s} one (then_ {t} {t'} r step) =
    let before = ChatReach-OneRow c u {s = s} one r in
    elim (step-Grows c u t t' step) [ inl le ↦ omega arith | inr (empty, le, why) ↦ le ]
