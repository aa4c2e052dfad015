-- ===== src/Calls/OneCall.antt =====
-- Sequences of requests and LiveKit events, and what holds of the table of calls after them.
use balt_oil.Calls.Moves.{
  IsConsistent, Moved, MovesOne, end_call-MovesOne, issue_token_for_room-MovesOne,
  livekit_webhook-MovesOne,
}
use balt_oil.Calls.Ops.{end_call, issue_token_for_room, livekit_webhook, occupies, start_call}
use balt_oil.Calls.Defs.{Call, CallWorld, RoomEvent, is_live}
use balt_oil.Text.{Text}
use balt_oil.Service.{Result, Role, TokenUser, err, ok}
use balt_oil.Table.{
  Table, Unique, any_row, count_rows, count_rows-put, count_rows-put_new, lookup, lookup-put, put,
  put-Unique,
}
use balt_oil.Prelude.{
  Bool, Bool-cases, List, Option, [], ap, arith, false, inl, inr, none, refl, some, sym, true, ℕ,
  ◌==◌, ◌∷◌, ◌≡◌, ◌≤◌,
}

-- One event. A start reads any table `seen`, old or new, so that a sequence of steps stands for
-- every interleaving of the check of one start with the inserts of others.
pub data CallStep (w w' : CallWorld) : Type 0 where
  started :
      (now id room : ℕ) (chat : Result (List (ℕ × Role))) (livekit_up : Bool) (conv : ℕ)
      (actor : TokenUser) (name : Text) (seen : Table Call) (c : Call)
      → lookup id w.calls ≡ none
      → start_call now id room chat livekit_up conv actor name seen w ≡ ok (w', c)
      → CallStep w w'
  joined :
      (now room : ℕ) (actor : TokenUser) (name : Text) (c : Call)
      → issue_token_for_room now room actor name w ≡ ok (w', c)
      → CallStep w w'
  hung_up :
      (now id : ℕ) (actor : TokenUser) (c : Call)
      → end_call now id actor w ≡ ok (w', c)
      → CallStep w w'
  notified :
      (now : ℕ) (event : Option (Option ℕ × RoomEvent)) (answer' : Bool)
      → livekit_webhook now event w ≡ (answer', w')
      → CallStep w w'

pub data CallReach (w : CallWorld) : CallWorld → Type 0 where
  here : CallReach w w
  next : {v u : CallWorld} → CallReach w v → CallStep v u → CallReach w u

-- The open calls of a conversation.
abbrev pub open_calls : ℕ → Table Call → ℕ
open_calls conv t = count_rows (occupies conv) t

-- The keys are unique, no conversation has two open calls, and the times fit the statuses.
pub record CallsOk (t : Table Call) : Type 0 where
  pub unique : Unique t
  pub one_call : (conv : ℕ) → open_calls conv t ≤ 1
  pub consistent : (k : ℕ) (c : Call) → lookup k t ≡ some c → IsConsistent c

any_row-count_rows :
    (p : Call → Bool) (t : Table Call)
    → any_row (λ k (c : Call). p c) t ≡ false
    → count_rows p t ≡ 0
any_row-count_rows p [] h = refl
any_row-count_rows p ((j, b) ∷ t) h = ground (arith, any_row-count_rows p t)

Moved-occupies :
    (conv : ℕ) (c c' : Call) → Moved c c' → occupies conv c' ≡ true → occupies conv c ≡ true
Moved-occupies conv c c' m h =
    let same = m.same_conversation in
    elim (Bool-cases (is_live c.status)) [
      | inl live ↦ rw (live, sym same) (ground arith)
      | inr shut ↦ absurd (ground (arith, m.stays_closed shut))
    ]

put-CallsOk :
    (k : ℕ) (c c' : Call) (t : Table Call)
    → lookup k t ≡ some c
    → Moved c c'
    → CallsOk t
    → CallsOk (put k c' t)
put-CallsOk k c c' t found m fine = record {
  unique = put-Unique k c' t fine.unique;
  one_call = λ conv. ground (
    arith,
    count_rows-put (occupies conv) k c' {old = c} t found,
    Moved-occupies conv c c' m,
    fine.one_call conv,
  );
  consistent = λ j a h. elim (Bool-cases (k == j)) [
    | inl same ↦
        let moved : a ≡ c' = ground (arith, lookup-put k j c' t) in
        rw moved (m.stays_consistent (fine.consistent k c found))
    | inr differ ↦ fine.consistent j a (ground (arith, lookup-put k j c' t))
  ];
}

MovesOne-CallsOk : (t t' : Table Call) → MovesOne t t' → CallsOk t → CallsOk t'
MovesOne-CallsOk t t' (inl same) fine = rw same fine
MovesOne-CallsOk t t' (inr (k, c, c', found, stored, m)) fine =
    rw stored (put-CallsOk k c c' t found m fine)

-- What a successful start does to the table.
pub start_call-stores :
    (now id room : ℕ) (chat : Result (List (ℕ × Role))) (livekit_up : Bool) (conv : ℕ)
    (actor : TokenUser) (name : Text) (seen : Table Call) (w w' : CallWorld) (c : Call)
    → start_call now id room chat livekit_up conv actor name seen w ≡ ok (w', c)
    → (any_row (λ k (d : Call). occupies conv d) w.calls ≡ false)
      × (w'.calls ≡ put id c w.calls)
      × (c.conversation_id ≡ conv)
      × IsConsistent c
unfolding start_call
start_call-stores now id room (err x) livekit_up conv actor name seen w w' c e = cc
start_call-stores now id room (ok invited) livekit_up conv actor name seen w w' c e = ground arith

start_call-CallsOk :
    (id conv : ℕ) (c : Call) (t : Table Call)
    → lookup id t ≡ none
    → any_row (λ k (d : Call). occupies conv d) t ≡ false
    → c.conversation_id ≡ conv
    → IsConsistent c
    → CallsOk t
    → CallsOk (put id c t)
start_call-CallsOk id conv c t fresh free where_ times fine = record {
  unique = put-Unique id c t fine.unique;
  one_call = λ conv'. elim (Bool-cases (c.conversation_id == conv')) [
    | inl same ↦ ground (
      arith,
      count_rows-put_new (occupies conv') id c t fresh,
      any_row-count_rows (occupies conv) t free,
    )
    | inr differ ↦
        ground (arith, count_rows-put_new (occupies conv') id c t fresh, fine.one_call conv')
  ];
  consistent = λ j a h. elim (Bool-cases (id == j)) [
    | inl same ↦ let new : a ≡ c = ground (arith, lookup-put id j c t) in rw new times
    | inr differ ↦ fine.consistent j a (ground (arith, lookup-put id j c t))
  ];
}

pub CallStep-CallsOk : (w w' : CallWorld) → CallStep w w' → CallsOk w.calls → CallsOk w'.calls
CallStep-CallsOk w w' (started now id room chat livekit_up conv actor name seen c fresh e) fine =
    let (free, stored, conv', times) =
      start_call-stores now id room chat livekit_up conv actor name seen w w' c e in
    rw stored (start_call-CallsOk id conv c w.calls fresh free conv' times fine)
CallStep-CallsOk w w' (joined now room actor name c e) fine =
    MovesOne-CallsOk w.calls w'.calls
      (issue_token_for_room-MovesOne now room actor name w w' c fine.unique e) fine
CallStep-CallsOk w w' (hung_up now id actor c e) fine =
    MovesOne-CallsOk w.calls w'.calls (end_call-MovesOne now id actor w w' c e) fine
CallStep-CallsOk w w' (notified now event answer' e) fine =
    let same : w' ≡ (livekit_webhook now event w).1 = sym (ap (λ (p : Bool × CallWorld). p.1) e) in
    rw same (
      MovesOne-CallsOk w.calls (livekit_webhook now event w).1.calls
        (livekit_webhook-MovesOne now event w fine.unique) fine)

-- In any order of starts, joins, hang-ups and LiveKit events, each of which runs as a whole but for
-- the check of a start, which may have read any older table, no conversation ever has two open calls,
-- and the answer and the end that a call records fit its status, if so it was before. A
-- new call has a new identifier.
pub CallReach-CallsOk : {w w' : CallWorld} → CallsOk w.calls → CallReach w w' → CallsOk w'.calls
CallReach-CallsOk fine here = fine
CallReach-CallsOk fine (next {v = v} {u = u} r step) =
    CallStep-CallsOk v u step (CallReach-CallsOk fine r)
