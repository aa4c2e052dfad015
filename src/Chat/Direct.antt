-- ===== src/Chat/Direct.antt =====
-- One direct conversation for two users, and what a removal leaves of a conversation.
use balt_oil.Prelude.{
  Bool, List, [], any, arith, false, keep, none, refl, true, ℕ, ◌==◌, ◌∷◌, ◌≡◌, ◌≢◌, Option,
  if◌then◌else◌, not, some,
}
use balt_oil.Service.{
  TokenUser, ok, >>=_Post, Post, Post-weaken, Post_ok, ends, forbidden, internal_error, is_admin,
  not_found, or_raise-Post, raise_if-Post,
}
use balt_oil.Table.{Table, lookup, put, any_row}
use balt_oil.Chat.Ensure.{ensure_direct, is_direct_of, direct_chat_for, matching, or_insert}
use balt_oil.Chat.Defs.{Chats, Conversation, insert_conversation, clashes}
use balt_oil.Chat.Rows.{scalar_one_or_none-lists}
use balt_oil.Chat.Removal.{delete_conversation}

is_direct_of-swap : (a b : ℕ) (conv : Conversation) → is_direct_of b a conv ≡ is_direct_of a b conv
is_direct_of-swap a b conv = ground arith

keep-same {ℓ} :
    {A : Type ℓ} (p q : A → Bool) (xs : List A) → ((x : A) → q x ≡ p x) → keep q xs ≡ keep p xs
keep-same p q [] same = refl
keep-same p q (x ∷ xs) same = rw (same x, keep-same p q xs same) refl

-- A new row that meets the condition is the only one, where no row met it before.
keep-put_new :
    (p : Conversation → Bool) (id : ℕ) (new : Conversation) (t : Table Conversation)
    → lookup id t ≡ none
    → p new ≡ true
    → keep (λ row. p row.1) t ≡ []
    → keep (λ row. p row.1) (put id new t) ≡ (id, new) ∷ []
keep-put_new p id new [] fresh fits empty = rw fits refl
keep-put_new p id new ((k, conv) ∷ t) fresh fits empty = ground (arith, keep-put_new p id new t)

insert_conversation-stores :
    (id : ℕ) (conv : Conversation) (s : Chats)
    → Post (λ s'. s'.conversations ≡ put id conv s.conversations) (insert_conversation id conv s)
unfolding insert_conversation
insert_conversation-stores id conv s =
    raise_if-Post (any_row (clashes conv) s.conversations) internal_error λ free. ends _ refl

-- There is one conversation that meets the condition.
abbrev OnlyOne : (Conversation → Bool) → Chats → ℕ → Type 0
OnlyOne p s k = (conv : Conversation) × (keep (λ row. p row.1) s.conversations ≡ (k, conv) ∷ [])

or_insert-OnlyOne :
    (p : Conversation → Bool) (found : Option (ℕ × Conversation)) (id : ℕ) (new : Conversation)
    (s : Chats)
    → lookup id s.conversations ≡ none
    → p new ≡ true
    → matching p s ≡ ok found
    → Post (λ done. OnlyOne p done.0 done.1) (or_insert found id new s)
or_insert-OnlyOne p (some (k, conv)) id new s fresh fits e =
    ends (s, k)
      (conv, scalar_one_or_none-lists (keep (λ row. p row.1) s.conversations) (some (k, conv)) e)
or_insert-OnlyOne p none id new s fresh fits e =
    >>=_Post (insert_conversation id new s) λ s' inserted.
      let stored = Post_ok (insert_conversation-stores id new s) inserted in
      let empty = scalar_one_or_none-lists (keep (λ row. p row.1) s.conversations) none e in
      ends (s', id) (new, rw stored (keep-put_new p id new s.conversations fresh fits empty))

ensure_direct-OnlyOne :
    (id a b : ℕ) (s : Chats)
    → lookup id s.conversations ≡ none
    → Post
        (λ done. ((a == b) ≡ false) × OnlyOne (is_direct_of a b) done.0 done.1)
        (ensure_direct id a b s)
unfolding ensure_direct
ensure_direct-OnlyOne id a b s fresh = raise_if-Post (a == b) forbidden λ two.
    >>=_Post (matching (is_direct_of a b) s) λ found e.
      Post-weaken (λ done only. (two, only))
        (or_insert-OnlyOne (is_direct_of a b) found id (direct_chat_for a b) s fresh (ground arith)
          e)

-- Whichever of two users asks first, the other then gets the same conversation and nothing is
-- added; a new conversation has a new identifier.
pub ensure_direct_again :
    (id id' a b k : ℕ) (s s' : Chats)
    → lookup id s.conversations ≡ none
    → ensure_direct id a b s ≡ ok (s', k)
    → ensure_direct id' b a s' ≡ ok (s', k)
unfolding ensure_direct
ensure_direct_again id id' a b k s s' fresh e =
    let (two, (conv, only)) = Post_ok (ensure_direct-OnlyOne id a b s fresh) e in
    let two' : (b == a) ≡ false = ground arith in
    let seen =
      keep-same (λ row. is_direct_of a b row.1) (λ row. is_direct_of b a row.1) s'.conversations
        (λ row. is_direct_of-swap a b row.1) in
    rw (two', seen, only) refl

any-keep-not {ℓ} :
    {A : Type ℓ} (p : A → Bool) (xs : List A) → any p (keep (λ x. not (p x)) xs) ≡ false
any-keep-not p [] = refl
any-keep-not p (x ∷ xs) = ground (arith, any-keep-not p xs)

lookup-keep-ne :
    (k j : ℕ) (t : Table Conversation)
    → lookup j (keep (λ row. not (row.0 == k)) t) ≡ (if j == k then none else lookup j t)
lookup-keep-ne k j [] = ground arith
lookup-keep-ne k j ((i, conv) ∷ t) = ground (arith, lookup-keep-ne k j t)

delete_conversation-leaves :
    (k : ℕ) (actor : TokenUser) (s : Chats)
    → Post
        (λ s'.
          (lookup k s'.conversations ≡ none)
          × (any (λ p. p.conversation_id == k) s'.participants ≡ false)
          × (any (λ row. row.1.conversation_id == k) s'.messages ≡ false)
          × ((j : ℕ) → j ≢ k → lookup j s'.conversations ≡ lookup j s.conversations))
        (delete_conversation k actor s)
unfolding delete_conversation
delete_conversation-leaves k actor s = raise_if-Post (not (is_admin actor.role)) forbidden λ may.
    or_raise-Post (lookup k s.conversations) not_found λ conv found. ends _ (
      ground (arith, lookup-keep-ne k k s.conversations),
      any-keep-not (λ p. p.conversation_id == k) s.participants,
      any-keep-not (λ row. row.1.conversation_id == k) s.messages,
      λ j other. ground (arith, lookup-keep-ne k j s.conversations),
    )

-- After the removal nothing is left of the conversation, and what is left of the others is what
-- there was.
pub delete_conversation-clean :
    (k : ℕ) (actor : TokenUser) (s s' : Chats)
    → delete_conversation k actor s ≡ ok s'
    → (lookup k s'.conversations ≡ none)
      × (any (λ p. p.conversation_id == k) s'.participants ≡ false)
      × (any (λ row. row.1.conversation_id == k) s'.messages ≡ false)
      × ((j : ℕ) → j ≢ k → lookup j s'.conversations ≡ lookup j s.conversations)
delete_conversation-clean k actor s s' e = Post_ok (delete_conversation-leaves k actor s) e
