-- ===== src/Chat/Quiet.antt =====
-- The operations that leave the rows of the participants as they are, or only take some away.
use balt_oil.Service.{
  >>=_Post, Post, Post_ok, TokenUser, ends, forbidden, internal_error, is_admin, is_staff,
  not_found, or_raise-Post, raise_if-Post, if_Post, is_client,
}
use balt_oil.Chat.Rows.{Grows, count-keep-le, count-update_rows, rows}
use balt_oil.Chat.Receipts.{
  list_conversations, touch_delivered_bulk, is_listed, keys_of, with_own_chat,
}
use balt_oil.Chat.Groups.{post_system_message_raw}
use balt_oil.Chat.Messages.{delete_message, post_system_message, live_message}
use balt_oil.Chat.Ensure.{
  ensure_client_accountant, ensure_client_driver_order, ensure_client_manager, ensure_direct,
  ensure_staff_group, ensure_staff_groups, is_accountant_chat_of, is_direct_of, is_group_of,
  is_manager_chat_of, is_order_chat_of, matching, or_insert, group_chat, order_chat,
}
use balt_oil.Chat.Defs.{
  Chats, Conversation, GroupCode, accounting, clashes, insert_conversation, is_row_of,
  live_conversation, work,
}
use balt_oil.Chat.Removal.{archive_conversation, clear_conversation, delete_conversation, without}
use balt_oil.Table.{any_row, lookup}
use balt_oil.Text.{Text}
use balt_oil.Prelude.{
  Bool, Option, Option-cases, inl, inr, none, not, refl, some, ℕ, ◌&&◌, ◌==◌, ◌∙◌, ◌≡◌, arith, keep,
  ◌≤◌, ap, count,
}

abbrev Quiet : Chats → Chats → Type 0
Quiet s s' = s'.participants ≡ s.participants

insert_conversation-Quiet :
    (id : ℕ) (conv : Conversation) (s : Chats)
    → Post (λ s'. Quiet s s') (insert_conversation id conv s)
unfolding insert_conversation
insert_conversation-Quiet id conv s =
    raise_if-Post (any_row (clashes conv) s.conversations) internal_error λ free. ends _ refl

or_insert-Quiet :
    (found : Option (ℕ × Conversation)) (id : ℕ) (conv : Conversation) (s : Chats)
    → Post (λ done. Quiet s done.0) (or_insert found id conv s)
or_insert-Quiet (some (k, old)) id conv s = ends (s, k) refl
or_insert-Quiet none id conv s =
    >>=_Post (insert_conversation id conv s)
      λ s' e. ends (s', id) (Post_ok (insert_conversation-Quiet id conv s) e)

pub ensure_client_manager-Quiet :
    (id client_id : ℕ) (s : Chats)
    → Post (λ done. Quiet s done.0) (ensure_client_manager id client_id s)
unfolding ensure_client_manager
ensure_client_manager-Quiet id client_id s =
    >>=_Post (matching (is_manager_chat_of client_id) s) λ found e. or_insert-Quiet found id _ s

pub ensure_client_accountant-Quiet :
    (id client_id : ℕ) (s : Chats)
    → Post (λ done. Quiet s done.0) (ensure_client_accountant id client_id s)
unfolding ensure_client_accountant
ensure_client_accountant-Quiet id client_id s =
    >>=_Post (matching (is_accountant_chat_of client_id) s) λ found e. or_insert-Quiet found id _ s

pub ensure_client_driver_order-Quiet :
    (id order_id client_id driver_id : ℕ) (order_number : Text) (s : Chats)
    → Post
        (λ done. Quiet s done.0)
        (ensure_client_driver_order id order_id client_id driver_id order_number s)
unfolding ensure_client_driver_order
ensure_client_driver_order-Quiet id order_id client_id driver_id order_number s =
    >>=_Post (matching (is_order_chat_of order_id) s) λ found e. elim (Option-cases found) [
      | inl missing ↦
          rw missing
            (or_insert-Quiet none id (order_chat order_id client_id driver_id order_number) s)
      | inr (row, there) ↦ rw there (ends _ refl)
    ]

pub ensure_direct-Quiet :
    (id a b : ℕ) (s : Chats) → Post (λ done. Quiet s done.0) (ensure_direct id a b s)
unfolding ensure_direct
ensure_direct-Quiet id a b s =
    raise_if-Post (a == b) forbidden
      λ two. >>=_Post (matching (is_direct_of a b) s) λ found e. or_insert-Quiet found id _ s

ensure_staff_group-Quiet :
    (id : ℕ) (code : GroupCode) (s : Chats) → Post (λ s'. Quiet s s') (ensure_staff_group id code s)
unfolding ensure_staff_group
ensure_staff_group-Quiet id code s = >>=_Post (matching (is_group_of code) s) λ found e.
    elim (Option-cases found) [
      | inl missing ↦ rw missing (insert_conversation-Quiet id (group_chat code) s)
      | inr (row, there) ↦ rw there (ends _ refl)
    ]

pub ensure_staff_groups-Quiet :
    (id id' : ℕ) (s : Chats) → Post (λ s'. Quiet s s') (ensure_staff_groups id id' s)
unfolding ensure_staff_groups
ensure_staff_groups-Quiet id id' s = >>=_Post (ensure_staff_group id work s) λ s' e.
    >>=_Post (ensure_staff_group id' accounting s') λ s'' e'.
      let first = Post_ok (ensure_staff_group-Quiet id work s) e in
      let second = Post_ok (ensure_staff_group-Quiet id' accounting s') e' in
      ends _ (second ∙ first)

pub post_system_message-Quiet :
    (now message_id k : ℕ) (text : Text) (s : Chats)
    → Post (λ s'. Quiet s s') (post_system_message now message_id k text s)
unfolding post_system_message post_system_message_raw
post_system_message-Quiet now message_id k text s =
    or_raise-Post (live_conversation k s) not_found λ conv found. ends _ refl

pub delete_message-Quiet :
    (m : ℕ) (actor : TokenUser) (s : Chats) → Post (λ s'. Quiet s s') (delete_message m actor s)
unfolding delete_message
delete_message-Quiet m actor s =
    or_raise-Post (live_message (lookup m s.messages)) not_found λ msg found.
      raise_if-Post (not (msg.sender_id == actor.id) && not (is_staff actor.role)) forbidden
        λ may. ends _ refl

pub archive_conversation-Quiet :
    (k : ℕ) (actor : TokenUser) (s : Chats)
    → Post (λ s'. Quiet s s') (archive_conversation k actor s)
unfolding archive_conversation
archive_conversation-Quiet k actor s =
    or_raise-Post (live_conversation k s) not_found
      λ conv found. raise_if-Post (not (is_staff actor.role)) forbidden λ may. ends _ refl

pub clear_conversation-Quiet :
    (k : ℕ) (actor : TokenUser) (s : Chats) → Post (λ s'. Quiet s s') (clear_conversation k actor s)
unfolding clear_conversation
clear_conversation-Quiet k actor s =
    raise_if-Post (not (is_admin actor.role)) forbidden
      λ may. or_raise-Post (live_conversation k s) not_found λ conv found. ends _ refl

module _ (c u : ℕ) (s : Chats) where
  pub without-Grows : (gone : ℕ → Bool) → Grows c u ⊥ s (without gone s)
  without-Grows gone =
      inl (count-keep-le (is_row_of c u) (λ p. not (gone p.conversation_id)) s.participants)

  pub delete_conversation-Grows :
      (k : ℕ) (actor : TokenUser) → Post (λ s'. Grows c u ⊥ s s') (delete_conversation k actor s)
  unfolding delete_conversation
  delete_conversation-Grows k actor = raise_if-Post (not (is_admin actor.role)) forbidden λ may.
      or_raise-Post (lookup k s.conversations) not_found
        λ conv found. ends _ (without-Grows (λ j. j == k))

  with_own_chat-Quiet :
      (id : ℕ) (actor : TokenUser) → Post (λ s'. Quiet s s') (with_own_chat id actor s)
  with_own_chat-Quiet id actor =
      if_Post (is_client actor.role)
        (>>=_Post (ensure_client_manager id actor.id s)
          λ done e. ends done.0 (Post_ok (ensure_client_manager-Quiet id actor.id s) e))
        (ends s refl)

  pub list_conversations-Grows :
      (now id : ℕ) (actor : TokenUser)
      → Post (λ done. Grows c u ⊥ s done.0) (list_conversations now id actor s)
  unfolding list_conversations touch_delivered_bulk
  list_conversations-Grows now id actor = >>=_Post (with_own_chat id actor s) λ s' e.
      let same : Quiet s s' = Post_ok (with_own_chat-Quiet id actor) e in
      let touched : rows c u (
            touch_delivered_bulk now (keys_of (keep (is_listed actor s') s'.conversations)) actor
              s')
          ≤ rows c u s' =
        omega (
          arith,
          count-update_rows c u s' _ (λ p. record p { last_delivered_at = some now })
              s'.participants (λ p. refl),
        ) in
      ends _ (inl omega (arith, touched, ap (count (is_row_of c u)) same))
