-- ===== src/Calls/Ops.antt =====
-- `start_call`, `issue_token_for_room` and `end_call` of call_service.py and `livekit_webhook` of
-- webhook.py. The clock, the new identifier, the random room name and the answers of the chat
-- service and of LiveKit are arguments; the grant for the room is not computed. Redis is taken to
-- answer, and what the chat service does with a message cannot fail the call.
use balt_oil.Calls.Defs.{
  Call, CallEvent, CallParticipant, CallWorld, RoomEvent, SystemMessage, active, another_event,
  call_ended, call_ended_message, call_initiated, call_missed_message, call_missed_notify,
  call_started_message, final_status, is_ended, is_live, is_ringing, participant_joined,
  participant_left, ringing, room_finished,
}
use balt_oil.Text.{Text}
use balt_oil.Service.{
  Result, Role, TokenUser, conflict, forbidden, internal_error, is_staff, not_found, ok, or_raise,
  raise_if, ◌>>=◌, ◌>>◌,
}
use balt_oil.Table.{Table, any_row, find_row, lookup, put}
use balt_oil.Redis.{second}
use balt_oil.Prelude.{
  Bool, List, Option, [], any, false, if◌then◌else◌, is_some, keep, length, map, none, not,
  or_default, some, true, ℕ, ◌&&◌, ◌++◌, ◌-◌, ◌/◌, ◌==◌, ◌||◌, ◌∷◌,
}

module _ {ℓ} {A : Type ℓ} where
  -- `for x in xs: if p(x): x = f(x); break`
  abbrev pub update_first : (A → Bool) → (A → A) → List A → List A
  update_first p f [] = []
  update_first p f (x ∷ xs) = if p x then f x ∷ xs else x ∷ update_first p f xs

abbrev pub is_user : ℕ → CallParticipant → Bool
is_user id p = p.user_id == id

abbrev pub user_ids : List CallParticipant → List ℕ
user_ids ps = map (λ (p : CallParticipant). p.user_id) ps

-- Everybody but the initiator.
abbrev pub other_ids : ℕ → List ℕ → List ℕ
other_ids initiator ids = keep (λ id. not (id == initiator)) ids

-- An open call of the conversation: the check, and the index `uq_calls_one_active_per_conv`.
abbrev pub occupies : ℕ → Call → Bool
occupies conv call = call.conversation_id == conv && is_live call.status

abbrev pub invite : ℕ → ℕ → Text → ℕ × Role → CallParticipant
invite now actor_id actor_name (id, role) = record {
  user_id = id;
  user_name = if id == actor_id then actor_name else [];
  user_role = role;
  joined_at = if id == actor_id then some now else none;
  left_at = none;
}

abbrev pub new_call : ℕ → ℕ → ℕ → TokenUser → Text → List (ℕ × Role) → Call
new_call now room conv actor name invited = record {
  conversation_id = conv;
  room_name = room;
  initiated_by_id = actor.id;
  initiated_by_name = name;
  status = ringing;
  started_at = now;
  answered_at = none;
  ended_at = none;
  participants = map (invite now actor.id name) invited;
}

-- `seen` is the table as the check read it and `w` the world when the row is inserted: another
-- request may have committed in between. The index then raises at the `flush`, outside the `try`.
unfoldable pub start_call :
    ℕ
    → ℕ
    → ℕ
    → Result (List (ℕ × Role))
    → Bool
    → ℕ
    → TokenUser
    → Text
    → Table Call
    → CallWorld
    → Result (CallWorld × Call)
start_call now id room chat livekit_up conv actor name seen w = do
  invited ← chat
  raise_if (length invited == 0) not_found
  let p_ids : List ℕ = map (λ (p : ℕ × Role). p.0) invited
  raise_if (not (any (λ u. u == actor.id) p_ids) && not (is_staff actor.role)) forbidden
  raise_if (any_row (λ k (c : Call). occupies conv c) seen) conflict
  raise_if (any_row (λ k (c : Call). occupies conv c) w.calls) internal_error
  raise_if (not livekit_up) internal_error
  let call = new_call now room conv actor name invited
  ok (
    record {
      calls = put id call w.calls;
      events = w.events ++ (call_initiated id (other_ids actor.id p_ids) ∷ []);
      messages = w.messages ++ (call_started_message conv id ∷ []);
    },
    call,
  )

-- `participant is in the call, or staff`
abbrev pub may_enter : TokenUser → Call → Bool
may_enter actor call = any (is_user actor.id) call.participants || is_staff actor.role

abbrev pub enter : ℕ → Option Text → CallParticipant → CallParticipant
enter now name p = record p {
  user_name = or_default name p.user_name;
  joined_at = some (or_default p.joined_at now);
}

-- A ringing call that somebody other than the initiator enters is answered.
abbrev pub answer : ℕ → ℕ → Call → Call
answer now user_id call =
    if is_ringing call.status && not (user_id == call.initiated_by_id)
    then record call { status = active; answered_at = some now }
    else call

abbrev pub join : ℕ → ℕ → Option Text → Call → Call
join now user_id name call = answer now user_id (record call {
  participants = update_first (is_user user_id) (enter now name) call.participants;
})

abbrev pub in_room : ℕ → ℕ → Call → Bool
in_room room k call = call.room_name == room

-- The call whose room the actor may join.
unfoldable pub issue_token_for_room :
    ℕ → ℕ → TokenUser → Text → CallWorld → Result (CallWorld × Call)
issue_token_for_room now room actor name w = do
  found ← or_raise (find_row (in_room room) w.calls) not_found
  raise_if (is_ended found.1.status) conflict
  raise_if (not (may_enter actor found.1)) forbidden
  let joined = join now actor.id (some name) found.1
  ok (record w { calls = put found.0 joined w.calls }, joined)

abbrev pub close : ℕ → Call → Call
close now call = record call { status = final_status call.answered_at; ended_at = some now }

-- What the chat is told of a closed call. An end before the answer counts as no time at all.
abbrev pub closing_message : ℕ → ℕ → Call → SystemMessage
closing_message now id call = elim call.answered_at [
  | none ↦ call_missed_message call.conversation_id id
  | some at ↦ call_ended_message call.conversation_id id ((now - at) / second)
]

-- `call_missed_notify`, if anybody was invited.
abbrev pub missed_notice : ℕ → List ℕ → List CallEvent
missed_notice id [] = []
missed_notice id (u ∷ us) = call_missed_notify id (u ∷ us) ∷ []

abbrev pub closing_events : ℕ → Call → List CallEvent
closing_events id call =
    call_ended id (final_status call.answered_at) (user_ids call.participants)
    ∷ (if is_some call.answered_at
        then []
        else missed_notice id (other_ids call.initiated_by_id (user_ids call.participants)))

unfoldable pub end_call : ℕ → ℕ → TokenUser → CallWorld → Result (CallWorld × Call)
end_call now id actor w = do
  call ← or_raise (lookup id w.calls) not_found
  raise_if (not (may_enter actor call)) forbidden
  if is_ended call.status
      then ok (w, call)
      else ok (
        record {
          calls = put id (close now call) w.calls;
          events = w.events ++ closing_events id call;
          messages = w.messages ++ (closing_message now id call ∷ []);
        },
        close now call,
      )

abbrev pub leave : ℕ → ℕ → Call → Call
leave now user_id call = record call {
  participants =
      update_first (is_user user_id) (λ (p : CallParticipant). record p { left_at = some now })
        call.participants;
}

-- The end of a room closes its call, without a message in the chat.
abbrev pub finish : ℕ → ℕ → Call → CallWorld → CallWorld
finish now id call w = if is_ended call.status then w else record w {
  calls = put id (close now call) w.calls;
  events =
      w.events ++ (call_ended id (final_status call.answered_at) (user_ids call.participants) ∷ []);
}

abbrev pub on_event : ℕ → RoomEvent → ℕ → Call → CallWorld → CallWorld
on_event now (participant_joined user_id) id call w = record w {
  calls = put id (join now user_id none call) w.calls;
}
on_event now (participant_left user_id) id call w = record w {
  calls = put id (leave now user_id call) w.calls;
}
on_event now room_finished id call w = finish now id call w
on_event now another_event id call w = w

-- An event of LiveKit, `none` if its signature is wrong; the answer is the `ok` of the reply.
unfoldable pub livekit_webhook : ℕ → Option (Option ℕ × RoomEvent) → CallWorld → Bool × CallWorld
livekit_webhook now none w = (false, w)
livekit_webhook now (some (none, event)) w = (true, w)
livekit_webhook now (some (some room, event)) w = elim (find_row (in_room room) w.calls) [
  | none ↦ (true, w)
  | some (id, call) ↦ (true, on_event now event id call w)
]
