-- ===== src/Calls/Examples.antt =====
-- Tests of the calls, and their theorems at concrete inputs.
use balt_oil.Calls.Closing.{CallReach-closed}
use balt_oil.Calls.OneCall.{CallReach-CallsOk, CallsOk, here, joined, next, notified, started}
use balt_oil.Calls.Ops.{
  close, end_call, issue_token_for_room, join, livekit_webhook, new_call, start_call,
}
use balt_oil.Calls.Defs.{
  Call, CallWorld, call_ended, call_ended_message, call_initiated, call_started_message, ended,
  missed, participant_joined,
}
use balt_oil.Text.{codes}
use balt_oil.Service.{Role, TokenUser, client, manager, ok}
use balt_oil.Redis.{second}
use balt_oil.Table.{lookup}
use balt_oil.Prelude.{List, [], arith, refl, some, true, ℕ, ◌*◌, ◌∷◌, ◌≡◌}

abbrev ivan : TokenUser
ivan = record { id = 1; role = manager }

abbrev olga : TokenUser
olga = record { id = 2; role = client }

abbrev stranger : TokenUser
stranger = record { id = 9; role = client }

abbrev quiet : CallWorld
quiet = record { calls = []; events = []; messages = [] }

abbrev invited_two : List (ℕ × Role)
invited_two = (1, manager) ∷ (2, client) ∷ []

abbrev first_call : Call
first_call = new_call (100 * second) 77 5 ivan (codes "Ivan") invited_two

abbrev ringing_world : CallWorld
ringing_world = record {
  calls = (10, first_call) ∷ [];
  events = call_initiated 10 (2 ∷ []) ∷ [];
  messages = call_started_message 5 10 ∷ [];
}

abbrev answered_call : Call
answered_call = join (110 * second) 2 (some (codes "Olga")) first_call

abbrev talking_world : CallWorld
talking_world = record ringing_world { calls = (10, answered_call) ∷ [] }

abbrev missed_call : Call
missed_call = close (130 * second) first_call

abbrev missed_world : CallWorld
missed_world = record ringing_world { calls = (10, missed_call) ∷ [] }

starts :
    start_call (100 * second) 10 77 (ok invited_two) true 5 ivan (codes "Ivan") [] quiet
    ≡ ok (ringing_world, first_call)
unfolding start_call
starts = refl

answers :
    issue_token_for_room (110 * second) 77 olga (codes "Olga") ringing_world
    ≡ ok (talking_world, answered_call)
unfolding issue_token_for_room
answers = refl

missed_world-CallsOk : CallsOk missed_world.calls
missed_world-CallsOk = record {
  unique = (refl, tt);
  one_call = λ conv. ground arith;
  consistent = λ k c h. ground arith;
}

quiet-CallsOk : CallsOk quiet.calls
quiet-CallsOk = record { unique = tt; one_call = λ conv. omega arith; consistent = λ k c h. cc }

CallReach-CallsOk_example : CallsOk talking_world.calls
CallReach-CallsOk_example = CallReach-CallsOk quiet-CallsOk (
    next
      (next here (
        started (100 * second) 10 77 (ok invited_two) true 5 ivan (codes "Ivan") [] first_call refl
          starts))
      (joined (110 * second) 77 olga (codes "Olga") answered_call answers))

room_ends :
    livekit_webhook (140 * second) (some (some 77, participant_joined 2)) missed_world
    ≡ (true, (livekit_webhook (140 * second) (some (some 77, participant_joined 2)) missed_world).1)
unfolding livekit_webhook
room_ends = refl

CallReach-closed_example :
    let w' =
      (livekit_webhook (140 * second) (some (some 77, participant_joined 2)) missed_world).1 in
    (c' : Call) × (lookup 10 w'.calls ≡ some c') × (c'.status ≡ missed)
CallReach-closed_example =
    CallReach-closed 10 missed_call
      (next here (notified (140 * second) (some (some 77, participant_joined 2)) true room_ends))
      missed_world-CallsOk refl refl

abbrev ended_world : CallWorld
ended_world = record {
  calls = (10, close (200 * second) answered_call) ∷ [];
  events = call_initiated 10 (2 ∷ []) ∷ call_ended 10 ended (1 ∷ 2 ∷ []) ∷ [];
  messages = call_started_message 5 10 ∷ call_ended_message 5 10 90 ∷ [];
}

ends :
    end_call (200 * second) 10 olga talking_world
    ≡ ok (ended_world, close (200 * second) answered_call)
unfolding end_call
ends = refl
