-- ===== src/Chat/Removal.antt =====
-- The archive, the removal and the clearing of conversations, in
-- app/services/conversation_service.py, and `handle_order_deleted` of redis_subscriber.py.
use balt_oil.Chat.Defs.{Chats, live_conversation}
use balt_oil.Service.{
  Result, TokenUser, forbidden, is_admin, is_staff, not_found, ok, or_raise, raise_if, ◌>>=◌, ◌>>◌,
}
use balt_oil.Table.{lookup, put}
use balt_oil.Prelude.{Bool, any, keep, not, same_id, true, ℕ, ◌&&◌, ◌==◌}

unfoldable pub archive_conversation : ℕ → TokenUser → Chats → Result Chats
archive_conversation k actor s = do
  conv ← or_raise (live_conversation k s) not_found
  raise_if (not (is_staff actor.role)) forbidden
  ok (record s { conversations = put k (record conv { is_archived = true }) s.conversations })

-- DELETE of conversations; their participants and messages go with them.
abbrev pub without : (ℕ → Bool) → Chats → Chats
without gone s = record {
  conversations = keep (λ row. not (gone row.0)) s.conversations;
  participants = keep (λ p. not (gone p.conversation_id)) s.participants;
  messages = keep (λ row. not (gone row.1.conversation_id)) s.messages;
}

unfoldable pub delete_conversation : ℕ → TokenUser → Chats → Result Chats
delete_conversation k actor s = do
  raise_if (not (is_admin actor.role)) forbidden
  conv ← or_raise (lookup k s.conversations) not_found
  ok (without (λ j. j == k) s)

unfoldable pub clear_conversation : ℕ → TokenUser → Chats → Result Chats
clear_conversation k actor s = do
  raise_if (not (is_admin actor.role)) forbidden
  conv ← or_raise (live_conversation k s) not_found
  ok (record s { messages = keep (λ row. not (row.1.conversation_id == k)) s.messages })

abbrev pub is_chat_of_order : ℕ → Chats → ℕ → Bool
is_chat_of_order order_id s k =
    any (λ row. row.0 == k && same_id row.1.order_id order_id) s.conversations

-- On the event `order_deleted` of order_service.
unfoldable pub handle_order_deleted : ℕ → Chats → Chats
handle_order_deleted order_id s = without (is_chat_of_order order_id s) s
