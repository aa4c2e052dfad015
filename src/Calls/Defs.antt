-- ===== src/Calls/Defs.antt =====
-- Rows of app/models/call.py, the events that call_service publishes and the messages that it has
-- the chat write. The clock counts microseconds; a room name is a number, and names are texts.
use balt_oil.Text.{Text}
use balt_oil.Service.{Role}
use balt_oil.Table.{Table}
use balt_oil.Prelude.{Bool, List, Option, false, none, some, true, ℕ}

pub data CallStatus : Type 0 where
  ringing active ended missed : CallStatus

pub record CallParticipant : Type 0 where
  pub user_id : ℕ
  pub user_name : Text
  pub user_role : Role
  pub joined_at : Option ℕ
  pub left_at : Option ℕ

pub record Call : Type 0 where
  pub conversation_id : ℕ
  pub room_name : ℕ
  pub initiated_by_id : ℕ
  pub initiated_by_name : Text
  pub status : CallStatus
  pub started_at : ℕ
  pub answered_at : Option ℕ
  pub ended_at : Option ℕ
  pub participants : List CallParticipant

-- What goes to the channel `events:calls`: the call and the users that it is for.
pub data CallEvent : Type 0 where
  call_initiated : ℕ → List ℕ → CallEvent
  call_ended : ℕ → CallStatus → List ℕ → CallEvent
  call_missed_notify : ℕ → List ℕ → CallEvent

-- System messages of the chat: the conversation, the call, and for an end its length in seconds.
pub data SystemMessage : Type 0 where
  call_started_message : ℕ → ℕ → SystemMessage
  call_missed_message : ℕ → ℕ → SystemMessage
  call_ended_message : ℕ → ℕ → ℕ → SystemMessage

-- The committed rows, and what was published and written, in order.
pub record CallWorld : Type 0 where
  pub calls : Table Call
  pub events : List CallEvent
  pub messages : List SystemMessage

-- The events of LiveKit that the receiver tells apart, with the identity of the participant.
pub data RoomEvent : Type 0 where
  participant_joined : ℕ → RoomEvent
  participant_left : ℕ → RoomEvent
  room_finished : RoomEvent
  another_event : RoomEvent

-- An open call: `status.in_([RINGING, ACTIVE])`
abbrev pub is_live : CallStatus → Bool
is_live ringing = true
is_live active = true
is_live _ = false

abbrev pub is_ringing : CallStatus → Bool
is_ringing ringing = true
is_ringing _ = false

abbrev pub is_ended : CallStatus → Bool
is_ended ended = true
is_ended _ = false

-- `CallStatus.ENDED if call.answered_at else CallStatus.MISSED`
abbrev pub final_status : Option ℕ → CallStatus
final_status none = missed
final_status (some _) = ended
