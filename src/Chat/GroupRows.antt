-- ===== src/Chat/GroupRows.antt =====
-- What the operations on the private groups do to the rows of the participants.
use mathlib.Core.Path.{subst}
use balt_oil.Table.{any_row, put}
use balt_oil.Text.{Text}
use balt_oil.Prelude.{
  Bool-cases, List, [], arith, count, if◌then◌else◌, inl, inr, ℕ, ◌&&◌, ◌==◌, ◌∷◌, ◌≡◌, ◌≤◌, Bool,
  Option, any, false, keep, not, refl, some, true, ◌++◌, ◌-◌, ◌≢◌, or_default, ◌+◌,
}
use balt_oil.Service.{
  >>=_Post, Post, Role, TokenUser, ends, forbidden, is_staff, not_found, or_raise-Post,
  raise_if-Post, Post_ok, fails, internal_error,
}
use balt_oil.Chat.Rows.{
  count-any, Grows, rows, Grows-weaken, count-append, count-keep-le, enrol-Grows,
}
use balt_oil.Chat.Access.{is_private_group}
use balt_oil.Chat.Groups.{
  has_id, id_set, rows_for, with_id, add_group_member, check_group_manage_access,
  create_private_group, load_manageable_group, load_private_group, may_manage_group,
  post_system_message_raw, remove_first, remove_group_member, set_private_group_members,
  founder_row, missing_ids, private_group, stays, wanted_ids, role_on,
}
use balt_oil.Chat.Defs.{
  ConversationParticipant, is_row_of, Chats, Conversation, insert_conversation, is_member,
  is_staff_group, live_conversation, clashes, enrol, joined,
}

-- How often a user is in a list.
abbrev times : ℕ → List ℕ → ℕ
times a = count (λ b. b == a)

times-with_id : (a b : ℕ) (ids : List ℕ) → times a ids ≤ 1 → times a (with_id b ids) ≤ 1
times-with_id a b ids one = elim (Bool-cases (has_id b ids)) [
  | inl old ↦ rw old one
  | inr new ↦
      let absent = count-any (λ d. d == b) ids new in
      rw new (elim (Bool-cases (b == a)) [
        | inl this ↦
            let same : b ≡ a = ground arith in
            let gone : times a ids ≡ 0 = subst (λ d. times d ids ≡ 0) same absent in
            rw this (omega arith)
        | inr other ↦ rw other (omega arith)
      ])
]

times-id_set : (a : ℕ) (ids : List ℕ) → times a (id_set ids) ≤ 1
times-id_set a [] = omega arith
times-id_set a (b ∷ ids) = times-with_id a b (id_set ids) (times-id_set a ids)

-- A user is among the new rows as often as in the list they are made for.
count-rows_for :
    (c u k : ℕ) (row : ℕ → ConversationParticipant) (ids : List ℕ)
    → ((a : ℕ) → is_row_of c u (row a) ≡ (k == c && a == u))
    → count (is_row_of c u) (rows_for k row ids) ≡ (if k == c then times u ids else 0)
count-rows_for c u k row [] made = ground arith
count-rows_for c u k row (a ∷ ids) made = ground (arith, made a, count-rows_for c u k row ids made)

times-keep : (q : ℕ → Bool) (u : ℕ) (ids : List ℕ) → q u ≡ false → times u (keep q ids) ≡ 0
times-keep q u [] h = refl
times-keep q u (a ∷ ids) h = elim (Bool-cases (a == u)) [
  | inl this ↦
      let same : a ≡ u = ground arith in
      let dropped : q a ≡ false = rw same h in rw dropped (times-keep q u ids h)
  | inr other ↦ ground (arith, times-keep q u ids h)
]

count-remove_first-le :
    (p q : ConversationParticipant → Bool) (xs : List ConversationParticipant)
    → count p (remove_first q xs) ≤ count p xs
count-remove_first-le p q [] = omega arith
count-remove_first-le p q (x ∷ xs) = ground (arith, count-remove_first-le p q xs)

pub count-remove_first :
    (p : ConversationParticipant → Bool) (xs : List ConversationParticipant)
    → count p (remove_first p xs) ≡ count p xs - 1
count-remove_first p [] = refl
count-remove_first p (x ∷ xs) = ground (arith, count-remove_first p xs)

abbrev pub Managed : ℕ → TokenUser → Chats → Type 0
Managed k actor s =
    (conv : Conversation) × (live_conversation k s ≡ some conv)
    × (may_manage_group conv actor ≡ true)

pub load_manageable_group-Managed :
    (k : ℕ) (actor : TokenUser) (s : Chats)
    → Post
        (λ conv.
          (live_conversation k s ≡ some conv)
          × (is_private_group conv ≡ true)
          × (may_manage_group conv actor ≡ true))
        (load_manageable_group k actor s)
unfolding load_manageable_group check_group_manage_access
load_manageable_group-Managed k actor s =
    or_raise-Post (live_conversation k s) not_found λ conv found.
      raise_if-Post (not (is_staff_group conv.kind)) forbidden λ group.
        raise_if-Post (not (is_private_group conv)) forbidden λ private.
          raise_if-Post (not (may_manage_group conv actor)) forbidden
            λ may. ends conv (found, ground arith, ground arith)

fresh_rows :
    (k u : ℕ) (ps : List ConversationParticipant)
    → any (λ p. p.conversation_id == k) ps ≡ false
    → count (is_row_of k u) ps ≡ 0
fresh_rows k u [] h = refl
fresh_rows k u (p ∷ ps) h = ground (arith, fresh_rows k u ps)

pub rows-is_member : (c u : ℕ) (s : Chats) → rows c u s ≢ 0 → is_member c u s ≡ true
rows-is_member c u s some_rows = elim (Bool-cases (is_member c u s)) [
  | inl in_ ↦ in_
  | inr out ↦ absurd (some_rows (count-any (is_row_of c u) s.participants out))
]

module _ (c u k : ℕ) (actor : TokenUser) (s : Chats) where
  rows_for-Grows :
      (kept : List ConversationParticipant) (row : ℕ → ConversationParticipant) (ids : List ℕ)
      (s' : Chats)
      → s'.participants ≡ kept ++ rows_for k row ids
      → count (is_row_of c u) kept ≤ rows c u s
      → ((a : ℕ) → is_row_of c u (row a) ≡ (k == c && a == u))
      → times u ids ≤ 1
      → (k ≡ c → rows c u s ≢ 0 → times u ids ≡ 0)
      → Grows c u (k ≡ c) s s'
  rows_for-Grows kept row ids s' stored le made one new =
      let all : rows c u s'
          ≡ count (is_row_of c u) kept + count (is_row_of c u) (rows_for k row ids) =
        rw stored (count-append (is_row_of c u) kept (rows_for k row ids)) in
      let added = count-rows_for c u k row ids made in
      elim (Bool-cases (k == c)) [
        | inl this ↦
            let same : k ≡ c = ground arith in
            let more : count (is_row_of c u) (rows_for k row ids) ≡ times u ids =
              rw (added, this) refl in
            elim (Bool-cases (rows c u s == 0)) [
              | inl empty ↦
                  let zero_rows : rows c u s ≡ 0 = ground arith in
                  inr (zero_rows, omega arith, same)
              | inr some_rows ↦ let none_new = new same (ground arith) in inl (omega arith)
            ]
        | inr other ↦
            let more : count (is_row_of c u) (rows_for k row ids) ≡ 0 = rw (added, other) refl in
            inl (omega arith)
      ]

  pub create_private_group-Grows :
      (now code : ℕ) (contacts : ℕ → Option Role) (title : Text) (member_ids : List ℕ)
      → any (λ p. p.conversation_id == k) s.participants ≡ false
      → Post
          (λ done. Grows c u (k ≡ c) s done.0)
          (create_private_group now k code contacts actor title member_ids s)
  unfolding create_private_group insert_conversation
  create_private_group-Grows now code contacts title member_ids fresh =
      raise_if-Post (not (is_staff actor.role)) forbidden λ may.
        let ids = with_id actor.id (id_set member_ids) in
        let row = founder_row now k actor contacts in
        let s' : Chats = record s {
          conversations = put k (private_group code actor title) s.conversations;
          participants = s.participants ++ rows_for k row ids;
        } in
        let once = times-with_id u actor.id (id_set member_ids) (times-id_set u member_ids) in
        let empty = fresh_rows k u s.participants fresh in
        elim (Bool-cases (any_row (clashes (private_group code actor title)) s.conversations)) [
          | inl taken ↦ rw taken (fails internal_error)
          | inr free ↦ rw free (
              ends (s', k)
                (rows_for-Grows s.participants row ids s' refl (omega arith) (λ a. refl) once
                  (λ same some_rows. absurd (some_rows (subst (λ d. rows d u s ≡ 0) same empty)))))
        ]

  pub set_private_group_members-Grows :
      (contacts : ℕ → Option Role) (member_ids : List ℕ)
      → Post
          (λ s'.
            Grows c u
              ((k ≡ c) × (is_staff actor.role ≡ true) × (is_member k actor.id s ≡ true))
              s
              s')
          (set_private_group_members contacts actor k member_ids s)
  unfolding set_private_group_members
  set_private_group_members-Grows contacts member_ids =
      >>=_Post (load_private_group k s) λ conv loaded.
        raise_if-Post (not (is_staff actor.role && is_member k actor.id s)) forbidden λ may.
          let wanted = wanted_ids conv actor member_ids in
          let once =
            times-with_id u conv.created_by_id _
              (times-with_id u actor.id _ (times-id_set u member_ids)) in
          let new = missing_ids k s wanted in
          let row = λ (a : ℕ). joined k a (role_on contacts a) in
          let kept = keep (stays k wanted) s.participants in
          let s' : Chats = record s { participants = kept ++ rows_for k row new } in
          let staff : is_staff actor.role ≡ true = ground arith in
          let inside : is_member k actor.id s ≡ true = ground arith in
          let outside = λ (a : ℕ). not (is_member k a s) in
          let le = count-keep-le (is_row_of c u) (stays k wanted) s.participants in
          let grows =
            rows_for-Grows kept row new s' refl le (λ a. refl)
              (omega (arith, once, count-keep-le (λ b. b == u) outside wanted))
              (λ same some_rows.
                times-keep outside u wanted (rw (same, rows-is_member c u s some_rows) refl)) in
          ends s' (Grows-weaken c u s s' (λ no_row same. (same, staff, inside)) grows)

  pub add_group_member-Grows :
      (now message_id user_id : ℕ) (card : Option (Option Text × Option Role))
      → Post
          (λ s'. Grows c u ((k ≡ c) × (user_id ≡ u) × Managed k actor s) s s')
          (add_group_member now message_id actor k user_id card s)
  unfolding add_group_member post_system_message_raw
  add_group_member-Grows now message_id user_id card =
      >>=_Post (load_manageable_group k actor s) λ conv loaded.
        let (found, private, may) = Post_ok (load_manageable_group-Managed k actor s) loaded in
        elim (Bool-cases (is_member k user_id s)) [
          | inl in_ ↦ rw in_ (ends s (inl (omega arith)))
          | inr out ↦ rw out (
              or_raise-Post card not_found λ contact known.
                let p = joined k user_id (or_default contact.1 Role.manager) in
                ends _ (
                  Grows-weaken c u s (enrol p s)
                    (λ no_row asked. (asked.0, asked.1, (conv, found, may)))
                    (enrol-Grows c u s p (count-any (is_row_of k user_id) s.participants out))))
        ]

  pub remove_group_member-Grows :
      (now message_id user_id : ℕ) (full_name : Option Text)
      → Post
          (λ s'. Grows c u ⊥ s s')
          (remove_group_member now message_id actor k user_id full_name s)
  unfolding remove_group_member post_system_message_raw
  remove_group_member-Grows now message_id user_id full_name =
      >>=_Post (load_manageable_group k actor s) λ conv loaded.
        raise_if-Post (user_id == conv.created_by_id) forbidden λ other.
          raise_if-Post (not (is_member k user_id s)) not_found λ there.
            ends _
              (inl (count-remove_first-le (is_row_of c u) (is_row_of k user_id) s.participants))
