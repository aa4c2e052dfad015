-- ===== src/Chat/Examples.antt =====
-- Tests of the chat, and its theorems at concrete inputs: a private group 7 of the managers 1 and 2,
-- the conversation 8 of the client 5 with the managers, and the driver 3, who is in neither.
use balt_oil.Chat.Rows.{rows}
use balt_oil.Chat.Reach.{ChatReach-OneRow, marked_read, start, then_}
use balt_oil.Chat.WaysIn.{ChatStep-WayIn, WayIn, mark_read_admits, remove_group_member_closes}
use balt_oil.Chat.Readable.{Readable, may_open-visible, search_messages-Readable}
use balt_oil.Chat.Seen.{mark_read-status}
use balt_oil.Chat.Direct.{ensure_direct_again}
use balt_oil.Chat.Defs.{
  Chats, Conversation, Message, by_system, client_manager, enrol, insert_conversation,
  insert_participant, joined, of_role, system_uuid,
}
use balt_oil.Chat.Access.{
  check_access, conversation_visibility, is_private_group, may_open, open_conversation,
}
use balt_oil.Chat.Ensure.{conversation, direct_chat_for, ensure_client_manager, ensure_direct}
use balt_oil.Chat.Groups.{
  check_group_manage_access, load_manageable_group, load_private_group, post_system_message_raw,
  private_group, remove_group_member, set_private_group_members,
}
use balt_oil.Chat.Receipts.{
  compute_message_status, get_peer_watermarks, list_conversations, mark_read, read,
  touch_delivered_bulk, unread_count,
}
use balt_oil.Chat.Messages.{search_messages}
use balt_oil.Service.{Role, TokenUser, err, forbidden, ok}
use balt_oil.Text.{codes}
use balt_oil.Prelude.{All, [], arith, false, none, refl, some, true, ◌++◌, ◌∷◌, ◌≡◌, ◌≤◌, ℕ}

abbrev anna : TokenUser
anna = record { id = 1; role = Role.manager }

abbrev boris : TokenUser
boris = record { id = 2; role = Role.manager }

abbrev petr : TokenUser
petr = record { id = 3; role = Role.driver }

abbrev clara : TokenUser
clara = record { id = 5; role = Role.client }

abbrev group : Conversation
group = private_group 77 anna (codes " SZTK ")

abbrev clara_chat : Conversation
clara_chat = record (conversation client_manager system_uuid by_system) { client_id = some 5 }

abbrev hello : Message
hello = record {
  conversation_id = 7;
  sender_id = 1;
  sender_role = of_role Role.manager;
  sender_name = codes "Anna";
  msg_type = codes "text";
  text = codes "hello";
  is_archived = false;
  created_at = 10;
  reply_to_id = none;
  is_pinned = false;
}

abbrev chats : Chats
chats = record {
  conversations = (7, group) ∷ (8, clara_chat) ∷ [];
  participants = joined 7 1 Role.manager ∷ joined 7 2 Role.manager ∷ [];
  messages = (50, hello) ∷ [];
}

is_private : is_private_group group ≡ true
unfolding is_private_group
is_private = refl

-- The driver marks the group as read.
abbrev after_read : Chats
after_read =
    enrol (record (joined 7 3 Role.driver) { last_read_at = some 99; last_delivered_at = some 99 })
      chats

reads : mark_read 99 7 petr chats ≡ ok after_read
unfolding mark_read insert_participant
reads = refl

-- Before that the driver may not open it.
refused : open_conversation 7 petr chats ≡ err forbidden
unfolding open_conversation check_access
refused = refl

ChatStep-WayIn_example : WayIn 7 3 chats after_read (marked_read 99 7 petr reads)
ChatStep-WayIn_example =
    ChatStep-WayIn 7 3 chats after_read group refl is_private refl refl
      (marked_read 99 7 petr reads)

ChatReach-OneRow_example : rows 7 3 after_read ≤ 1
ChatReach-OneRow_example =
    ChatReach-OneRow 7 3 (omega arith) (then_ start (marked_read 99 7 petr reads))

mark_read_admits_example :
    (s' : Chats) × (mark_read 99 7 petr chats ≡ ok s') × (open_conversation 7 petr s' ≡ ok group)
mark_read_admits_example = mark_read_admits 99 7 petr chats group refl is_private refl

abbrev after_removal : Chats
after_removal =
    post_system_message_raw 99 51 7 (codes "Boris" ++ codes " удалён(а) из чата")
      (record chats { participants = joined 7 1 Role.manager ∷ [] })

removes : remove_group_member 99 51 anna 7 2 (some (codes "Boris")) chats ≡ ok after_removal
unfolding remove_group_member load_manageable_group check_group_manage_access is_private_group
removes = refl

remove_group_member_closes_example : open_conversation 7 boris after_removal ≡ err forbidden
remove_group_member_closes_example =
    remove_group_member_closes 99 51 7 anna boris (some (codes "Boris")) chats after_removal
      (omega arith) refl removes

may_open-visible_example :
    conversation_visibility clara clara_chat false ≡ may_open clara_chat clara false
may_open-visible_example = may_open-visible clara clara_chat false refl (refl, refl, refl, refl)

-- A search that takes every message finds the one in the group for its member.
finds : search_messages (λ query text. true) (codes "he") boris chats ≡ ok ((50, hello) ∷ [])
unfolding search_messages conversation_visibility
finds = refl

-- And none for the driver.
finds_nothing : search_messages (λ query text. true) (codes "he") petr chats ≡ ok []
unfolding search_messages conversation_visibility
finds_nothing = refl

search_messages-Readable_example :
    All {A = ℕ × Message} (λ row. Readable boris chats row.1) ((50, hello) ∷ [])
search_messages-Readable_example =
    search_messages-Readable (λ query text. true) (codes "he") boris chats ((50, hello) ∷ []) refl
      finds

mark_read-status_example :
    let marks = get_peer_watermarks 7 1 after_read in
    compute_message_status hello 1 marks.0 marks.1 ≡ some read
mark_read-status_example =
    mark_read-status 99 7 1 petr chats after_read hello (omega arith) refl (omega arith) reads

abbrev after_direct : Chats
after_direct = record chats {
  conversations = (7, group) ∷ (8, clara_chat) ∷ (9, direct_chat_for 1 5) ∷ [];
}

starts : ensure_direct 9 1 5 chats ≡ ok (after_direct, 9)
unfolding ensure_direct insert_conversation
starts = refl

ensure_direct_again_example : ensure_direct 10 5 1 after_direct ≡ ok (after_direct, 9)
ensure_direct_again_example = ensure_direct_again 9 10 1 5 9 chats after_direct refl starts

-- A founder who sets the members keeps the own row, and new members get one.
regroups :
    set_private_group_members (λ a. none) anna 7 (3 ∷ 3 ∷ []) chats
    ≡ ok (record chats { participants = joined 7 1 Role.manager ∷ joined 7 3 Role.manager ∷ [] })
unfolding set_private_group_members load_private_group is_private_group
regroups = refl

-- The list of the client, whose conversation with the managers is there.
lists : list_conversations 99 20 clara chats ≡ ok (chats, (8, 0) ∷ [])
unfolding list_conversations ensure_client_manager conversation_visibility unread_count
    touch_delivered_bulk
lists = refl
