-- ===== src/Chat/Seen.antt =====
-- The marks of reading: the ticks of the sender and the unread counter of the reader.
use balt_oil.Prelude.{
  Bool, List, [], arith, find, keep, some, true, ℕ, ◌++◌, ◌∷◌, ◌≡◌, All, Option, is_some, none, not,
  refl, ◌||◌, ◌≢◌, ◌≤◌, Bool-cases, inl, inr,
}
use balt_oil.Chat.Receipts.{
  mark_read, compute_message_status, get_peer_watermarks, is_peer_of, is_unread, later, max_mark,
  max_of, reaches, read, unread_count,
}
use balt_oil.Chat.Defs.{
  Chats, ConversationParticipant, insert_participant, is_row_of, participant_row, update_rows,
  Message, enrol, joined,
}
use balt_oil.Table.{Table, count_rows, lookup}
use balt_oil.Service.{>>=_Post, Post, TokenUser, Post_ok, ends, internal_error, ok, raise_if-Post}
use balt_oil.Chat.Rows.{row_cases}

-- One row of the user in the conversation has been read at the time, and no other row is theirs.
abbrev MarkedAt : ℕ → ℕ → ℕ → Chats → Type 0
MarkedAt now k a s =
    (p : ConversationParticipant) × (find (is_row_of k a) s.participants ≡ some p)
    × (p.last_read_at ≡ some now)

find-update_rows :
    (p : ConversationParticipant → Bool) (f : ConversationParticipant → ConversationParticipant)
    (x : ConversationParticipant) (ps : List ConversationParticipant)
    → ((y : ConversationParticipant) → p (f y) ≡ p y)
    → find p ps ≡ some x
    → find p (update_rows p f ps) ≡ some (f x)
find-update_rows p f x [] same h = cc
find-update_rows p f x (y ∷ ps) same h = ground (arith, same y, find-update_rows p f x ps same)

find-last :
    (p : ConversationParticipant → Bool) (x : ConversationParticipant)
    (ps : List ConversationParticipant)
    → p x ≡ true
    → keep p ps ≡ []
    → find p (ps ++ (x ∷ [])) ≡ some x
find-last p x [] mine h = ground arith
find-last p x (y ∷ ps) mine h = ground (arith, find-last p x ps mine)

find-keep :
    (p : ConversationParticipant → Bool) (x : ConversationParticipant)
    (ps : List ConversationParticipant)
    → keep p ps ≡ x ∷ []
    → find p ps ≡ some x
find-keep p x [] h = cc
find-keep p x (y ∷ ps) h = ground (arith, find-keep p x ps)

mark_read-MarkedAt :
    (now k : ℕ) (actor : TokenUser) (s : Chats)
    → Post (λ s'. MarkedAt now k actor.id s' × (s'.messages ≡ s.messages)) (mark_read now k actor s)
unfolding mark_read insert_participant
mark_read-MarkedAt now k actor s = >>=_Post (participant_row k actor.id s) λ row e.
    row_cases k actor.id s row e
      (λ p one. ends _ (
        (
          record p { last_read_at = some now; last_delivered_at = later now p.last_delivered_at },
          find-update_rows (is_row_of k actor.id) _ p s.participants (λ y. refl)
              (find-keep (is_row_of k actor.id) p s.participants one),
          refl,
        ),
        refl,
      ))
      (λ gone. raise_if-Post (not (is_some (lookup k s.conversations))) internal_error λ there.
        let p : ConversationParticipant = record (joined k actor.id actor.role) {
          last_read_at = some now;
          last_delivered_at = some now;
        } in
        ends (enrol p s)
          ((p, find-last (is_row_of k actor.id) p s.participants (ground arith) gone, refl), refl))

count_rows-unread :
    (now k a : ℕ) (ms : Table Message)
    → All (λ row. row.1.created_at ≤ now) ms
    → count_rows (is_unread k a (some now)) ms ≡ 0
count_rows-unread now k a [] h = refl
count_rows-unread now k a ((m, msg) ∷ ms) h = ground (arith, count_rows-unread now k a ms h.1)

-- Once a user has marked a conversation as read, its unread counter is 0 for that user, if no
-- message is from a later time.
pub mark_read-unread :
    (now k : ℕ) (actor : TokenUser) (s s' : Chats)
    → All (λ row. row.1.created_at ≤ now) s.messages
    → mark_read now k actor s ≡ ok s'
    → unread_count k actor.id s' ≡ 0
unfolding unread_count
mark_read-unread now k actor s s' past e =
    let ((p, found, marked), messages) = Post_ok (mark_read-MarkedAt now k actor s) e in
    rw (found, marked, messages) (count_rows-unread now k actor.id s.messages past)

reaches-max_mark :
    (a b : Option ℕ) (t : ℕ) → reaches (max_mark a b) t ≡ (reaches a t || reaches b t)
reaches-max_mark none b t = refl
reaches-max_mark (some a) none t = ground arith
reaches-max_mark (some a) (some b) t = ground arith

reaches-max_of :
    (k u a now t : ℕ) (p : ConversationParticipant) (ps : List ConversationParticipant)
    → u ≢ a
    → t ≤ now
    → p.last_read_at ≡ some now
    → find (is_row_of k u) ps ≡ some p
    → reaches (max_of (λ q. q.last_read_at) (keep (is_peer_of k a) ps)) t ≡ true
reaches-max_of k u a now t p [] other le marked found = cc
reaches-max_of k u a now t p (q ∷ ps) other le marked found =
    let column = λ (x : ConversationParticipant). x.last_read_at in
    let peers = keep (is_peer_of k a) ps in
    let joins = reaches-max_mark q.last_read_at (max_of column peers) t in
    elim (Bool-cases (is_row_of k u q)) [
      | inl this ↦
          let same : q ≡ p = ground arith in
          let mark : q.last_read_at ≡ some now = rw same marked in
          let reached : reaches q.last_read_at t ≡ true = rw mark (ground arith) in
          let peer : is_peer_of k a q ≡ true = ground arith in rw (peer, joins, reached) refl
      | inr not_this ↦
          let later_on : find (is_row_of k u) ps ≡ some p = ground arith in
          let reached = reaches-max_of k u a now t p ps other le marked later_on in
          elim (Bool-cases (is_peer_of k a q)) [
            | inl peer ↦ rw (peer, joins) (ground arith)
            | inr no_peer ↦ rw no_peer reached
          ]
    ]

-- Once another user has marked a conversation as read, every message of the sender in it that is
-- not from a later time shows as read.
pub mark_read-status :
    (now k sender : ℕ) (actor : TokenUser) (s s' : Chats) (msg : Message)
    → actor.id ≢ sender
    → msg.sender_id ≡ sender
    → msg.created_at ≤ now
    → mark_read now k actor s ≡ ok s'
    → let marks = get_peer_watermarks k sender s' in
      compute_message_status msg sender marks.0 marks.1 ≡ some read
unfolding get_peer_watermarks compute_message_status
mark_read-status now k sender actor s s' msg other own past e =
    let ((p, found, marked), messages) = Post_ok (mark_read-MarkedAt now k actor s) e in
    let seen =
      reaches-max_of k actor.id sender now msg.created_at p s'.participants other past marked
        found in
    ground arith
