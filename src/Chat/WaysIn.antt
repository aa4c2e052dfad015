-- ===== src/Chat/WaysIn.antt =====
-- How a user comes into a private group, and how one is put out.
use mathlib.Core.Path.{subst}
use balt_oil.Service.{
  TokenUser, is_admin, is_staff, ok, >>=_Post, Post, Post_ok, ends, err, forbidden, not_found,
  raise_if-Post,
}
use balt_oil.Chat.Reach.{
  Cause, ChatStep, added, forwarded, grouped, loaded, marked_read, opened, pinned, regrouped, sent_,
  step-Grows,
}
use balt_oil.Chat.GroupRows.{Managed, count-remove_first, load_manageable_group-Managed}
use balt_oil.Chat.Receipts.{mark_read}
use balt_oil.Table.{lookup}
use balt_oil.Text.{Text}
use balt_oil.Prelude.{
  Option, arith, false, inl, inr, some, true, ℕ, ◌≡◌, Option-cases, ap, count, none, not, refl,
  ◌==◌, ◌≤◌,
}
use balt_oil.Chat.Rows.{any-count, any-last, count-any, keep-any, rows}
use balt_oil.Chat.Access.{is_private_group, may_open, check_access, open_conversation}
use balt_oil.Chat.Groups.{
  load_manageable_group, post_system_message_raw, remove_first, remove_group_member,
}
use balt_oil.Chat.Defs.{
  Chats, Conversation, is_member, ConversationParticipant, enrol, insert_participant, is_row_of,
  joined, live_conversation,
}
use balt_oil.Chat.Entries.{Opened}

-- The request of an administrator about the conversation `c`, who is the user `u`.
abbrev AsksAsAdmin : (c u k : ℕ) → TokenUser → Type 0
AsksAsAdmin c u k actor = (k ≡ c) × (actor.id ≡ u) × (is_admin actor.role ≡ true)

-- What must hold of a request that brings the user `u` into the conversation `c`. Through all
-- requests that are not listed nobody comes in.
abbrev pub WayIn : (c u : ℕ) (s s' : Chats) → ChatStep s s' → Type 0
WayIn c u s s' (regrouped contacts actor k member_ids e) =
    (k ≡ c) × (is_staff actor.role ≡ true) × (is_member k actor.id s ≡ true)
WayIn c u s s' (added now message_id actor k user_id card e) =
    (k ≡ c) × (user_id ≡ u) × Managed k actor s
WayIn c u s s' (opened now k actor conv e) = AsksAsAdmin c u k actor
WayIn c u s s' (pinned k actor is_pinned e) = AsksAsAdmin c u k actor
WayIn c u s s' (loaded now k actor page e) = AsksAsAdmin c u k actor
WayIn c u s s' (sent_ now message_id blocked n sender_name k draft actor told e) =
    AsksAsAdmin c u k actor
WayIn c u s s' (forwarded now message_id file_lost blocked n sender_name source m k actor told e) =
    AsksAsAdmin c u k actor
WayIn c u s s' (marked_read now k actor e) = (k ≡ c) × (actor.id ≡ u)
WayIn c u s s' step = ⊥

pub live_conversation-found :
    (k : ℕ) (s : Chats) (conv : Conversation)
    → live_conversation k s ≡ some conv
    → (lookup k s.conversations ≡ some conv) × (conv.is_archived ≡ false)
live_conversation-found k s conv live = elim (Option-cases (lookup k s.conversations)) [
  | inl missing ↦ absurd (ground arith)
  | inr (a, held) ↦ ground arith
]

may_open-admin :
    (conv : Conversation) (actor : TokenUser)
    → is_private_group conv ≡ true
    → may_open conv actor false ≡ true
    → is_admin actor.role ≡ true
unfolding is_private_group
may_open-admin conv actor private may = ground arith

module _ (c u : ℕ) (s s' : Chats) (group : Conversation)
    (found : lookup c s.conversations ≡ some group) (private : is_private_group group ≡ true)
    (outside : is_member c u s ≡ false) where
  Opened-AsksAsAdmin : (k : ℕ) (actor : TokenUser) → Opened c u k actor s → AsksAsAdmin c u k actor
  Opened-AsksAsAdmin k actor ((this, me), (conv, live, may)) =
      let (held, unarchived) = live_conversation-found k s conv live in
      let held_here : lookup c s.conversations ≡ some conv =
        subst (λ d. lookup d s.conversations ≡ some conv) this held in
      let same : group ≡ conv = ground arith in
      let no_member : is_member k actor.id s ≡ false = rw (this, me) outside in
      let may_alone : may_open conv actor false ≡ true = rw (← no_member) may in
      (this, me, may_open-admin conv actor (rw (← same) private) may_alone)

  Cause-WayIn : (step : ChatStep s s') → Cause c u s s' step → WayIn c u s s' step
  Cause-WayIn (grouped now id code k contacts actor title member_ids fresh new e) this =
      let absent : lookup c s.conversations ≡ none =
        subst (λ d. lookup d s.conversations ≡ none) this new in
      cc
  Cause-WayIn (regrouped contacts actor k member_ids e) (this, staff, member) =
      (this, staff, member)
  Cause-WayIn (added now message_id actor k user_id card e) (this, user, managed) =
      (this, user, managed)
  Cause-WayIn (opened now k actor conv e) may = Opened-AsksAsAdmin k actor may
  Cause-WayIn (pinned k actor is_pinned e) may = Opened-AsksAsAdmin k actor may
  Cause-WayIn (marked_read now k actor e) (this, me) = (this, me)
  Cause-WayIn (loaded now k actor page e) may = Opened-AsksAsAdmin k actor may
  Cause-WayIn (sent_ now message_id blocked n sender_name k draft actor told e) may =
      Opened-AsksAsAdmin k actor may
  Cause-WayIn (forwarded now message_id file_lost blocked n sender_name source m k actor told e)
        may =
      Opened-AsksAsAdmin k actor may
  Cause-WayIn step why = absurd why

  -- When a user who is not in a private group is in it after a request, the request was one of
  -- these, about this group: its members were set by a member of the staff who is in it; the user was
  -- added by an administrator or its founder; the user, an administrator, opened, pinned or loaded
  -- it, or wrote or forwarded to it; or the user marked it as read. A group that is set up by the
  -- request has a new identifier.
  pub ChatStep-WayIn : is_member c u s' ≡ true → (step : ChatStep s s') → WayIn c u s s' step
  ChatStep-WayIn inside step = elim (step-Grows c u s s' step) [
    | inl le ↦
        let before = count-any (is_row_of c u) s.participants outside in
        let after = any-count (is_row_of c u) s'.participants (omega arith) in cc
    | inr (empty, le, why) ↦ Cause-WayIn step why
  ]

member_may :
    (conv : Conversation) (actor : TokenUser)
    → is_private_group conv ≡ true
    → may_open conv actor true ≡ true
unfolding is_private_group
member_may conv actor private = ground arith

-- The last of these ways is open to everybody: whoever marks a private group as read, in any role,
-- may open it from then on.
pub mark_read_admits :
    (now k : ℕ) (actor : TokenUser) (s : Chats) (group : Conversation)
    → live_conversation k s ≡ some group
    → is_private_group group ≡ true
    → is_member k actor.id s ≡ false
    → (s' : Chats) × (mark_read now k actor s ≡ ok s') × (open_conversation k actor s' ≡ ok group)
unfolding mark_read insert_participant open_conversation check_access is_private_group
mark_read_admits now k actor s group live private outside =
    let p : ConversationParticipant = record (joined k actor.id actor.role) {
      last_read_at = some now;
      last_delivered_at = some now;
    } in
    let (held, unarchived) = live_conversation-found k s group live in
    let no_row = keep-any (is_row_of k actor.id) s.participants outside in
    let inside : is_member k actor.id (enrol p s) ≡ true =
      any-last (is_row_of k actor.id) s.participants p (ground arith) in
    (enrol p s, rw (no_row, held) refl, rw (live, inside, member_may group actor private) refl)

remove_group_member-stores :
    (now message_id k user_id : ℕ) (actor : TokenUser) (full_name : Option Text) (s : Chats)
    → Post
        (λ s'.
          (conv : Conversation) × (live_conversation k s ≡ some conv)
          × (is_private_group conv ≡ true)
          × (s'.participants ≡ remove_first (is_row_of k user_id) s.participants)
          × (s'.conversations ≡ s.conversations))
        (remove_group_member now message_id actor k user_id full_name s)
unfolding remove_group_member post_system_message_raw
remove_group_member-stores now message_id k user_id actor full_name s =
    >>=_Post (load_manageable_group k actor s) λ conv loaded.
      let (live, private, may) = Post_ok (load_manageable_group-Managed k actor s) loaded in
      raise_if-Post (user_id == conv.created_by_id) forbidden λ other.
        raise_if-Post (not (is_member k user_id s)) not_found
          λ there. ends _ (conv, live, private, refl, refl)

private_closed :
    (conv : Conversation) (user : TokenUser)
    → is_private_group conv ≡ true
    → is_admin user.role ≡ false
    → may_open conv user false ≡ false
unfolding is_private_group
private_closed conv user private plain = ground arith

-- A user whom a manager of the group puts out may not open it any more, unless the user is an
-- administrator; the user had one row in it.
pub remove_group_member_closes :
    (now message_id k : ℕ) (actor user : TokenUser) (full_name : Option Text) (s s' : Chats)
    → rows k user.id s ≤ 1
    → is_admin user.role ≡ false
    → remove_group_member now message_id actor k user.id full_name s ≡ ok s'
    → open_conversation k user s' ≡ err forbidden
unfolding open_conversation check_access
remove_group_member_closes now message_id k actor user full_name s s' one plain e =
    let (conv, live, private, participants, conversations) =
      Post_ok (remove_group_member-stores now message_id k user.id actor full_name s) e in
    let fewer : rows k user.id s' ≡ 0 = omega (
      arith,
      count-remove_first (is_row_of k user.id) s.participants,
      ap (count (is_row_of k user.id)) participants,
    ) in
    let outside = any-count (is_row_of k user.id) s'.participants fewer in
    let same : live_conversation k s' ≡ some conv = rw conversations live in
    rw (same, outside, private_closed conv user private plain) refl
