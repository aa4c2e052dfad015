-- ===== src/Calls/Moves.antt =====
-- What each operation does to the table of calls: nothing, or one row moves the way `Moved` says.
use balt_oil.Calls.Ops.{
  close, end_call, in_room, issue_token_for_room, join, leave, livekit_webhook, on_event,
}
use balt_oil.Calls.Defs.{
  Call, CallWorld, RoomEvent, active, another_event, ended, is_ended, is_live, missed,
  participant_joined, participant_left, ringing, room_finished,
}
use balt_oil.Text.{Text}
use balt_oil.Service.{TokenUser, ok}
use balt_oil.Table.{Table, Unique, find_row, lookup, lookup-find_row, put}
use balt_oil.Prelude.{
  Bool-cases, Option, Option-cases, arith, false, inl, inr, is_some, none, refl, some, true, ℕ, ◌≡◌,
  ◌⊎◌,
}

-- The times of a call fit its status: an answer for an active and an ended call, an end for a
-- closed one.
abbrev pub IsConsistent : Call → Type 0
IsConsistent c = elim c.status [
  | ringing ↦ (c.answered_at ≡ none) × (c.ended_at ≡ none)
  | active ↦ (is_some c.answered_at ≡ true) × (c.ended_at ≡ none)
  | ended ↦ (is_some c.answered_at ≡ true) × (is_some c.ended_at ≡ true)
  | missed ↦ (c.answered_at ≡ none) × (is_some c.ended_at ≡ true)
]

-- A row that changes keeps its conversation and is open only if it was; if its times fit its
-- status, so they do afterwards, and a closed call keeps its status.
pub record Moved (c c' : Call) : Type 0 where
  pub same_conversation : c'.conversation_id ≡ c.conversation_id
  pub stays_closed : is_live c.status ≡ false → is_live c'.status ≡ false
  pub stays_consistent : IsConsistent c → IsConsistent c'
  pub keeps_outcome : IsConsistent c → is_live c.status ≡ false → c'.status ≡ c.status

-- One row of the table moved, or none.
abbrev pub MovesOne : Table Call → Table Call → Type 0
MovesOne t t' =
    (t' ≡ t)
    ⊎ ((k : ℕ) × (c : Call) × (c' : Call) × (lookup k t ≡ some c) × (t' ≡ put k c' t) × Moved c c')

close-Moved : (now : ℕ) (c : Call) → is_ended c.status ≡ false → Moved c (close now c)
close-Moved now c live = record {
  same_conversation = refl;
  stays_closed = λ h. ground arith;
  stays_consistent = λ h. ground arith;
  keeps_outcome = λ h shut. ground arith;
}

join-Moved : (now user_id : ℕ) (name : Option Text) (c : Call) → Moved c (join now user_id name c)
join-Moved now user_id name c = record {
  same_conversation = ground arith;
  stays_closed = λ h. ground arith;
  stays_consistent = λ h. ground arith;
  keeps_outcome = λ h shut. ground arith;
}

leave-Moved : (now user_id : ℕ) (c : Call) → Moved c (leave now user_id c)
leave-Moved now user_id c = record {
  same_conversation = refl;
  stays_closed = λ h. h;
  stays_consistent = λ h. h;
  keeps_outcome = λ h shut. refl;
}

pub issue_token_for_room-MovesOne :
    (now room : ℕ) (actor : TokenUser) (name : Text) (w w' : CallWorld) (c : Call)
    → Unique w.calls
    → issue_token_for_room now room actor name w ≡ ok (w', c)
    → MovesOne w.calls w'.calls
unfolding issue_token_for_room
issue_token_for_room-MovesOne now room actor name w w' c u e =
    elim (Option-cases (find_row (in_room room) w.calls)) [
      | inl missing ↦ absurd (ground arith)
      | inr (row, found) ↦ inr (
        row.0,
        row.1,
        join now actor.id (some name) row.1,
        lookup-find_row (in_room room) row.0 row.1 w.calls u found,
        ground arith,
        join-Moved now actor.id (some name) row.1,
      )
    ]

pub end_call-MovesOne :
    (now id : ℕ) (actor : TokenUser) (w w' : CallWorld) (c : Call)
    → end_call now id actor w ≡ ok (w', c)
    → MovesOne w.calls w'.calls
unfolding end_call
end_call-MovesOne now id actor w w' c e = elim (Option-cases (lookup id w.calls)) [
  | inl missing ↦ absurd (ground arith)
  | inr (call, found) ↦ elim (Bool-cases (is_ended call.status)) [
    | inl over ↦ inl (ground arith)
    | inr live ↦ inr (id, call, close now call, found, ground arith, close-Moved now call live)
  ]
]

on_event-MovesOne :
    (now id : ℕ) (event : RoomEvent) (call : Call) (w : CallWorld)
    → lookup id w.calls ≡ some call
    → MovesOne w.calls (on_event now event id call w).calls
on_event-MovesOne now id (participant_joined user_id) call w found =
    inr (id, call, join now user_id none call, found, refl, join-Moved now user_id none call)
on_event-MovesOne now id (participant_left user_id) call w found =
    inr (id, call, leave now user_id call, found, refl, leave-Moved now user_id call)
on_event-MovesOne now id room_finished call w found = elim (Bool-cases (is_ended call.status)) [
  | inl over ↦ inl (ground arith)
  | inr live ↦ inr (id, call, close now call, found, ground arith, close-Moved now call live)
]
on_event-MovesOne now id another_event call w found = inl refl

pub livekit_webhook-MovesOne :
    (now : ℕ) (event : Option (Option ℕ × RoomEvent)) (w : CallWorld)
    → Unique w.calls
    → MovesOne w.calls (livekit_webhook now event w).1.calls
unfolding livekit_webhook
livekit_webhook-MovesOne now none w u = inl refl
livekit_webhook-MovesOne now (some (none, event)) w u = inl refl
livekit_webhook-MovesOne now (some (some room, event)) w u =
    elim (Option-cases (find_row (in_room room) w.calls)) [
      | inl missing ↦ inl (ground arith)
      | inr (row, found) ↦
          rw (found, livekit_webhook)
            (on_event-MovesOne now row.0 event row.1 w
              (lookup-find_row (in_room room) row.0 row.1 w.calls u found))
    ]
