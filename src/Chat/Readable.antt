-- ===== src/Chat/Readable.antt =====
-- The conditions of the lists and of the search against the check of a single conversation.
use balt_oil.Chat.Defs.{
  Chats, Conversation, GroupCode, Message, another_code, is_client_driver_order, is_direct,
  is_staff_group, live_conversation, is_member,
}
use balt_oil.Text.{Text, strip}
use balt_oil.Table.{Table}
use balt_oil.Service.{
  Role, TokenUser, another_role, is_client, is_driver, is_staff, ok, Post, Post_ok, ends,
  raise_if-Post, validation,
}
use balt_oil.Prelude.{
  Bool, Option, arith, false, inl, inr, none, not, same_id, some, true, ◌&&◌, ◌≡◌, All, Bool-cases,
  List, [], keep, length, ltb, refl, ◌∷◌,
}
use balt_oil.Chat.Messages.{is_hit, min_search_len, search_messages, shows}
use balt_oil.Chat.Access.{check_access, conversation_visibility, may_open, open_conversation}

abbrev pub is_another_role : Role → Bool
is_another_role another_role = true
is_another_role _ = false

abbrev pub is_another_group : Option GroupCode → Bool
is_another_group none = true
is_another_group (some (another_code n)) = true
is_another_group (some code) = false

-- A client stands in a conversation as the client and a driver as the driver, but for the direct
-- ones; the staff meet no group but those that are set up and the private ones.
abbrev pub Fits : TokenUser → Conversation → Type 0
Fits actor conv =
    (is_another_role actor.role ≡ false)
    × (is_client actor.role && is_client_driver_order conv.kind && same_id conv.driver_id actor.id
        ≡ false)
    × (is_driver actor.role && not (is_direct conv.kind) && same_id conv.client_id actor.id ≡ false)
    × (is_staff actor.role && is_staff_group conv.kind && is_another_group conv.group_code ≡ false)

-- A conversation that is not archived is in the list of a user exactly when the user may open it,
-- for an administrator, a manager, a driver or a client; left out are a client who stands as the
-- driver in the conversation of an order, a driver who stands as the client in one that is not
-- direct, and the staff where a group has no code or one that is neither a private group's nor that
-- of the two groups which are set up at the start.
pub may_open-visible :
    (actor : TokenUser) (conv : Conversation) (member : Bool)
    → conv.is_archived ≡ false
    → Fits actor conv
    → conversation_visibility actor conv member ≡ may_open conv actor member
unfolding conversation_visibility
may_open-visible actor conv member live fits = ground arith

visible_opens :
    (actor : TokenUser) (conv : Conversation) (member : Bool)
    → is_another_role actor.role ≡ false
    → conversation_visibility actor conv member ≡ true
    → may_open conv actor member ≡ true
unfolding conversation_visibility
visible_opens actor conv member known seen = ground arith

abbrev pub Readable : TokenUser → Chats → Message → Type 0
Readable actor s msg =
    (conv : Conversation) × (open_conversation msg.conversation_id actor s ≡ ok conv)

shows-opens :
    (actor : TokenUser) (found : Option Conversation) (member : Bool)
    → is_another_role actor.role ≡ false
    → shows actor found member ≡ true
    → (conv : Conversation) × (found ≡ some conv) × (may_open conv actor member ≡ true)
shows-opens actor none member known seen = cc
shows-opens actor (some conv) member known seen =
    (conv, refl, visible_opens actor conv member known seen)

is_hit-Readable :
    (actor : TokenUser) (s : Chats) (fits : Text → Bool) (msg : Message)
    → is_another_role actor.role ≡ false
    → is_hit actor s fits msg ≡ true
    → Readable actor s msg
unfolding open_conversation check_access
is_hit-Readable actor s fits msg known hit =
    let found = live_conversation msg.conversation_id s in
    let member = is_member msg.conversation_id actor.id s in
    let seen : shows actor found member ≡ true = ground arith in
    let (conv, live, may) = shows-opens actor found member known seen in (conv, rw (live, may) refl)

keep-All {ℓ} :
    {A : Type ℓ} (P : A → Type 0) (p : A → Bool) (xs : List A)
    → ((x : A) → p x ≡ true → P x)
    → All P (keep p xs)
keep-All P p [] h = tt
keep-All P p (x ∷ xs) h = elim (Bool-cases (p x)) [
  | inl yes_ ↦ rw yes_ (h x yes_, keep-All P p xs h)
  | inr no_ ↦ rw no_ (keep-All P p xs h)
]

search_messages-Post :
    (like : Text → Text → Bool) (query : Text) (actor : TokenUser) (s : Chats)
    → is_another_role actor.role ≡ false
    → Post (λ hits. All (λ row. Readable actor s row.1) hits) (search_messages like query actor s)
unfolding search_messages
search_messages-Post like query actor s known =
    raise_if-Post (ltb (length (strip query)) min_search_len) validation λ long. ends _ (
      keep-All (λ row. Readable actor s row.1) (λ row. is_hit actor s (like (strip query)) row.1)
        s.messages (λ row hit. is_hit-Readable actor s (like (strip query)) row.1 known hit))

-- The search shows a user only messages of conversations that the same user may open, for a role
-- that the code knows.
pub search_messages-Readable :
    (like : Text → Text → Bool) (query : Text) (actor : TokenUser) (s : Chats)
    (hits : Table Message)
    → is_another_role actor.role ≡ false
    → search_messages like query actor s ≡ ok hits
    → All (λ row. Readable actor s row.1) hits
search_messages-Readable like query actor s hits known e =
    Post_ok (search_messages-Post like query actor s known) e
