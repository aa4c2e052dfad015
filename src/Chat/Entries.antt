-- ===== src/Chat/Entries.antt =====
-- What the operations that keep the marks of a user do to the rows of the participants, and the
-- handlers that open a conversation first.
use balt_oil.Service.{
  >>=_Post, Post, TokenUser, ends, internal_error, ok, raise_if-Post, Post_ok, forbidden, is_client,
  is_staff, not_found, or_raise-Post,
}
use balt_oil.Chat.Rows.{
  Grows, Grows-same, Grows-weaken, enrol-Grows, rows, count-any, update_rows-Grows, row-Post,
}
use balt_oil.Chat.Defs.{
  Chats, Conversation, ConversationParticipant, insert_participant, is_member, is_row_of,
  live_conversation, participant_row, enrol, joined,
}
use balt_oil.Text.{Text}
use balt_oil.Chat.Receipts.{auto_enroll, mark_read, set_pinned, touch_delivered, get_conversation}
use balt_oil.Prelude.{
  Bool, Option-cases, arith, inl, inr, is_some, none, refl, some, true, ℕ, ◌≡◌, Bool-cases, false,
  not, ◌&&◌,
}
use balt_oil.Table.{lookup}
use balt_oil.Chat.Messages.{
  Draft, check_message_rate, enroll_staff, forward_message, get_messages, message_in, send_message,
  set_message_pinned,
}
use balt_oil.Chat.Access.{check_access, may_open, open_conversation}

-- The user asked for the conversation.
abbrev pub Asked : ℕ → ℕ → ℕ → TokenUser → Type 0
Asked c u k actor = (k ≡ c) × (actor.id ≡ u)

abbrev pub MayOpen : ℕ → TokenUser → Chats → Type 0
MayOpen k actor s =
    (conv : Conversation) × (live_conversation k s ≡ some conv)
    × (may_open conv actor (is_member k actor.id s) ≡ true)

-- The user asked for the conversation and may open it.
abbrev pub Opened : ℕ → ℕ → ℕ → TokenUser → Chats → Type 0
Opened c u k actor s = Asked c u k actor × MayOpen k actor s

pub open_conversation-opens :
    (k : ℕ) (actor : TokenUser) (s : Chats) (conv : Conversation)
    → open_conversation k actor s ≡ ok conv
    → (live_conversation k s ≡ some conv) × (may_open conv actor (is_member k actor.id s) ≡ true)
unfolding open_conversation check_access
open_conversation-opens k actor s conv e = elim (Option-cases (live_conversation k s)) [
  | inl missing ↦ absurd (ground arith)
  | inr (a, found) ↦ ground arith
]

module _ (c u now k : ℕ) (actor : TokenUser) (s : Chats) where
  pub auto_enroll-Grows :
      Post (λ s'. Grows c u (Asked c u k actor) s s') (auto_enroll now k actor s)
  unfolding auto_enroll
  auto_enroll-Grows = >>=_Post (participant_row k actor.id s) λ row e.
      row-Post k actor.id s row e (ends _ (Grows-same c u s s refl))
        λ empty. ends _ (enrol-Grows c u s _ empty)

  open_conversation-MayOpen :
      (conv : Conversation) → open_conversation k actor s ≡ ok conv → MayOpen k actor s
  open_conversation-MayOpen conv opened =
      let (found, may) = open_conversation-opens k actor s conv opened in (conv, found, may)

  pub set_pinned-Grows :
      (is_pinned : Bool)
      → Post (λ s'. Grows c u (Opened c u k actor s) s s') (set_pinned k actor is_pinned s)
  unfolding set_pinned
  set_pinned-Grows is_pinned = >>=_Post (open_conversation k actor s) λ conv opened.
      >>=_Post (participant_row k actor.id s) λ row e.
        row-Post k actor.id s row e (ends _ (update_rows-Grows c u s _ _ (λ p. refl))) λ empty.
          let p : ConversationParticipant = record (joined k actor.id actor.role) {
            is_pinned = is_pinned;
          } in
          ends _ (
            Grows-weaken c u s (enrol p s)
              (λ no_row asked. (asked, open_conversation-MayOpen conv opened))
              (enrol-Grows c u s p empty))

  insert_participant-Grows :
      (p : ConversationParticipant)
      → rows p.conversation_id p.user_id s ≡ 0
      → Post
          (λ s'. Grows c u ((p.conversation_id ≡ c) × (p.user_id ≡ u)) s s')
          (insert_participant p s)
  unfolding insert_participant
  insert_participant-Grows p empty =
      raise_if-Post (not (is_some (lookup p.conversation_id s.conversations))) internal_error
        λ there. ends _ (enrol-Grows c u s p empty)

  pub mark_read-Grows : Post (λ s'. Grows c u (Asked c u k actor) s s') (mark_read now k actor s)
  unfolding mark_read
  mark_read-Grows = >>=_Post (participant_row k actor.id s) λ row e.
      row-Post k actor.id s row e (ends _ (update_rows-Grows c u s _ _ (λ p. refl)))
        (insert_participant-Grows _)

  pub touch_delivered-Grows :
      Post (λ s'. Grows c u (Asked c u k actor) s s') (touch_delivered now k actor s)
  unfolding touch_delivered
  touch_delivered-Grows = >>=_Post (participant_row k actor.id s) λ row e.
      row-Post k actor.id s row e (ends _ (update_rows-Grows c u s _ _ (λ p. refl)))
        (insert_participant-Grows _)

  Opened-Grows :
      (conv : Conversation) (s' : Chats)
      → open_conversation k actor s ≡ ok conv
      → Grows c u (Asked c u k actor) s s'
      → Grows c u (Opened c u k actor s) s s'
  Opened-Grows conv s' opened grows =
      Grows-weaken c u s s' (λ no_row asked. (asked, open_conversation-MayOpen conv opened)) grows

  pub get_conversation-Grows :
      Post (λ done. Grows c u (Opened c u k actor s) s done.0) (get_conversation now k actor s)
  unfolding get_conversation
  get_conversation-Grows = >>=_Post (open_conversation k actor s) λ conv opened.
      >>=_Post (auto_enroll now k actor s)
        λ s' e. ends _ (Opened-Grows conv s' opened (Post_ok auto_enroll-Grows e))

  pub get_messages-Grows :
      Post (λ done. Grows c u (Opened c u k actor s) s done.0) (get_messages now k actor s)
  unfolding get_messages
  get_messages-Grows = >>=_Post (open_conversation k actor s) λ conv opened.
      >>=_Post (touch_delivered now k actor s)
        λ s' e. ends _ (Opened-Grows conv s' opened (Post_ok touch_delivered-Grows e))

  pub set_message_pinned-Grows :
      (m : ℕ) (is_pinned : Bool)
      → Post (λ s'. Grows c u ⊥ s s') (set_message_pinned k m actor is_pinned s)
  unfolding set_message_pinned
  set_message_pinned-Grows m is_pinned = >>=_Post (open_conversation k actor s) λ conv opened.
      or_raise-Post (message_in k (lookup m s.messages)) not_found
        λ msg found. ends _ (inl (omega arith))

  enroll_staff-Grows : Grows c u (Asked c u k actor) s (enroll_staff now k actor s)
  enroll_staff-Grows = elim (Bool-cases (is_staff actor.role && not (is_member k actor.id s))) [
    | inl new ↦
        let outside : is_member k actor.id s ≡ false = ground arith in
        rw new (enrol-Grows c u s _ (count-any (is_row_of k actor.id) s.participants outside))
    | inr old ↦ rw old (Grows-same c u s s refl)
  ]

  pub send_message-Grows :
      (message_id : ℕ) (blocked : Bool) (n : ℕ) (sender_name : Text) (draft : Draft)
      → Post
          (λ done. Grows c u (Opened c u k actor s) s done.0)
          (send_message now message_id blocked n sender_name k draft actor s)
  unfolding send_message
  send_message-Grows message_id blocked n sender_name draft =
      >>=_Post (open_conversation k actor s) λ conv opened.
        raise_if-Post (is_client actor.role && blocked) forbidden λ free.
          >>=_Post (check_message_rate n) λ slow slow_e.
            ends _ (Opened-Grows conv (enroll_staff now k actor s) opened enroll_staff-Grows)

  pub forward_message-Grows :
      (message_id : ℕ) (file_lost blocked : Bool) (n : ℕ) (sender_name : Text) (source m : ℕ)
      → Post
          (λ done. Grows c u (Opened c u k actor s) s done.0)
          (forward_message now message_id file_lost blocked n sender_name source m k actor s)
  unfolding forward_message
  forward_message-Grows message_id file_lost blocked n sender_name source m =
      >>=_Post (open_conversation source actor s) λ conv opened.
        or_raise-Post (message_in source (lookup m s.messages)) not_found λ msg found.
          raise_if-Post file_lost not_found λ there.
            send_message-Grows message_id blocked n sender_name
              (record { text = msg.text; msg_type = msg.msg_type; reply_to_id = none })
