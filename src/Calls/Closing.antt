-- ===== src/Calls/Closing.antt =====
-- The end of a call, once and again, and who may bring it about.
use balt_oil.Calls.OneCall.{
  CallReach, CallReach-CallsOk, CallStep, CallsOk, here, hung_up, joined, next, notified,
  start_call-stores, started,
}
use balt_oil.Calls.Moves.{
  IsConsistent, MovesOne, end_call-MovesOne, issue_token_for_room-MovesOne,
  livekit_webhook-MovesOne,
}
use balt_oil.Calls.Ops.{
  close, closing_events, closing_message, end_call, in_room, is_user, issue_token_for_room, join,
  livekit_webhook, may_enter, occupies, other_ids, start_call, user_ids,
}
use balt_oil.Calls.Defs.{
  Call, CallWorld, active, call_ended, call_ended_message, call_missed_message, call_missed_notify,
  ended, is_ended, is_live, missed,
}
use balt_oil.Text.{Text}
use balt_oil.Service.{Role, TokenUser, conflict, err, forbidden, internal_error, is_staff, ok}
use balt_oil.Redis.{second}
use balt_oil.Table.{Table, any_row, find_row, lookup, lookup-put, put}
use balt_oil.Prelude.{
  Bool, Bool-cases, List, [], any, ap, arith, false, if◌then◌else◌, inl, inr, length, map, none,
  refl, some, sym, true, ℕ, ◌++◌, ◌-◌, ◌/◌, ◌==◌, ◌∙◌, ◌∷◌, ◌≡◌,
}

MovesOne-closed :
    (k : ℕ) (c : Call) (t t' : Table Call)
    → MovesOne t t'
    → lookup k t ≡ some c
    → IsConsistent c
    → is_live c.status ≡ false
    → (c' : Call) × (lookup k t' ≡ some c') × (c'.status ≡ c.status)
MovesOne-closed k c t t' (inl same) found times shut = (c, rw same found, refl)
MovesOne-closed k c t t' (inr (j, b, b', held, stored, m)) found times shut =
    elim (Bool-cases (j == k)) [
      | inl same ↦
          let this : b ≡ c = ground arith in
          (
            b',
            rw stored (ground (arith, lookup-put j k b' t)),
            rw this at (m.keeps_outcome (rw this times) (rw this shut)),
          )
      | inr differ ↦ (c, rw stored (ground (arith, lookup-put j k b' t)), refl)
    ]

CallStep-closed :
    (k : ℕ) (c : Call) (w w' : CallWorld)
    → CallStep w w'
    → CallsOk w.calls
    → lookup k w.calls ≡ some c
    → is_live c.status ≡ false
    → (c' : Call) × (lookup k w'.calls ≡ some c') × (c'.status ≡ c.status)
CallStep-closed k c w w' (started now id room chat up conv actor name seen b fresh e) fine found
      shut =
    let (free, stored, conv', times) =
      start_call-stores now id room chat up conv actor name seen w w' b e in
    (c, rw stored (ground (arith, lookup-put id k b w.calls)), refl)
CallStep-closed k c w w' (joined now room actor name b e) fine found shut =
    MovesOne-closed k c w.calls w'.calls
      (issue_token_for_room-MovesOne now room actor name w w' b fine.unique e) found
      (fine.consistent k c found) shut
CallStep-closed k c w w' (hung_up now id actor b e) fine found shut =
    MovesOne-closed k c w.calls w'.calls (end_call-MovesOne now id actor w w' b e) found
      (fine.consistent k c found) shut
CallStep-closed k c w w' (notified now event answer' e) fine found shut =
    let same : w' ≡ (livekit_webhook now event w).1 = sym (ap (λ (p : Bool × CallWorld). p.1) e) in
    rw same (
      MovesOne-closed k c w.calls (livekit_webhook now event w).1.calls
        (livekit_webhook-MovesOne now event w fine.unique) found (fine.consistent k c found) shut)

-- A call that has ended or was missed keeps that outcome whatever is asked afterwards: no request
-- and no LiveKit event that runs as a whole opens it again or turns one outcome into the other.
pub CallReach-closed :
    {w w' : CallWorld} (k : ℕ) (c : Call)
    → CallReach w w'
    → CallsOk w.calls
    → lookup k w.calls ≡ some c
    → is_live c.status ≡ false
    → (c' : Call) × (lookup k w'.calls ≡ some c') × (c'.status ≡ c.status)
CallReach-closed k c here fine found shut = (c, found, refl)
CallReach-closed k c (next {v = v} {u = u} r step) fine found shut =
    let (b, held, same) = CallReach-closed k c r fine found shut in
    let (c', stored, again) =
      CallStep-closed k b v u step (CallReach-CallsOk fine r) held (rw same shut) in
    (c', stored, again ∙ same)

-- A member or an employee who hangs up an answered call ends it with its length in the chat, and a
-- second hang-up by anybody who may enter changes nothing.
pub end_call_answered :
    (now later id at : ℕ) (actor another : TokenUser) (w w' : CallWorld) (c c' : Call)
    → lookup id w.calls ≡ some c
    → c.status ≡ active
    → c.answered_at ≡ some at
    → may_enter actor c ≡ true
    → may_enter another c ≡ true
    → end_call now id actor w ≡ ok (w', c')
    → (c'.status ≡ ended)
      × (w'.messages
          ≡ w.messages ++ (call_ended_message c.conversation_id id ((now - at) / second) ∷ []))
      × (end_call later id another w' ≡ ok (w', c'))
unfolding end_call
end_call_answered now later id at actor another w w' c c' found on answered may may' e =
    ground (arith, lookup-put id id (close now c) w.calls)

-- A missed call can be hung up again: the second hang-up answers with success, publishes the end
-- and the notice of a missed call once more and writes to the chat again.
pub end_call_missed_again :
    (now id u : ℕ) (us : List ℕ) (actor : TokenUser) (w : CallWorld) (c : Call)
    → lookup id w.calls ≡ some c
    → c.status ≡ missed
    → c.answered_at ≡ none
    → may_enter actor c ≡ true
    → other_ids c.initiated_by_id (user_ids c.participants) ≡ u ∷ us
    → (w' : CallWorld) × (end_call now id actor w ≡ ok (w', close now c))
      × (w'.events
          ≡ w.events
            ++ (call_ended id missed (user_ids c.participants)
                ∷ call_missed_notify id (u ∷ us)
                ∷ []))
      × (w'.messages ≡ w.messages ++ (call_missed_message c.conversation_id id ∷ []))
unfolding end_call
end_call_missed_again now id u us actor w c found over unanswered may invited = (
  record {
    calls = put id (close now c) w.calls;
    events = w.events ++ closing_events id c;
    messages = w.messages ++ (closing_message now id c ∷ []);
  },
  ground arith,
  ground arith,
  ground arith,
)

-- Somebody who was not invited and is no employee neither joins a call nor ends it.
pub outsider_refused :
    (now id room : ℕ) (actor : TokenUser) (name : Text) (w : CallWorld) (c : Call)
    → lookup id w.calls ≡ some c
    → find_row (in_room room) w.calls ≡ some (id, c)
    → any (is_user actor.id) c.participants ≡ false
    → is_staff actor.role ≡ false
    → (end_call now id actor w ≡ err forbidden)
      × (issue_token_for_room now room actor name w
          ≡ err (if is_ended c.status then conflict else forbidden))
unfolding end_call issue_token_for_room
outsider_refused now id room actor name w c found placed uninvited plain =
    (ground arith, ground arith)

-- A missed call can still be joined: a participant gets the grant for its room.
pub issue_token_for_room_missed :
    (now room k : ℕ) (actor : TokenUser) (name : Text) (w : CallWorld) (c : Call)
    → find_row (in_room room) w.calls ≡ some (k, c)
    → c.status ≡ missed
    → may_enter actor c ≡ true
    → issue_token_for_room now room actor name w
      ≡ ok (
        record w { calls = put k (join now actor.id (some name) c) w.calls },
        join now actor.id (some name) c,
      )
unfolding issue_token_for_room
issue_token_for_room_missed now room k actor name w c found over may = ground arith

-- If another start commits a call of the conversation after the check, the second start inserts
-- nothing, and its answer is an internal error and not the conflict.
pub start_call_race :
    (now id room : ℕ) (invited : List (ℕ × Role)) (livekit_up : Bool) (conv : ℕ) (actor : TokenUser)
    (name : Text) (seen : Table Call) (w : CallWorld)
    → (length invited == 0) ≡ false
    → any (λ u. u == actor.id) (map (λ (p : ℕ × Role). p.0) invited) ≡ true
    → any_row (λ k (c : Call). occupies conv c) seen ≡ false
    → any_row (λ k (c : Call). occupies conv c) w.calls ≡ true
    → start_call now id room (ok invited) livekit_up conv actor name seen w ≡ err internal_error
unfolding start_call
start_call_race now id room invited livekit_up conv actor name seen w some_ member free taken =
    ground arith
