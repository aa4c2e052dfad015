-- ===== src/Tanks/Ops.antt =====
-- The operations of tank_service.py. Each takes what the code asks of its surroundings: the fresh
-- identifier of a new row, the labels of the fuel catalog (fuel_catalog.get_fuel_labels) and the
-- actor's name from auth_service (_resolve_actor_name, which answers None on any failure).
use balt_oil.Prelude.{
  ℕ, Bool, String, is_some, ◌&&◌, true, false, not, Option, none, some, List, [], ◌∷◌, ◌++◌, ltb,
  leb, ◌==◌, if◌then◌else◌, or_default, any, keep,
}
use balt_oil.Prelude.Int.{ℤ, pos, ◌-ℤ◌, ◌+ℤ◌, abs, ltb_ℤ}
use balt_oil.Table.{lookup, put, remove}
use balt_oil.Text.{Text, strip, ◌=str◌}
use balt_oil.Service.{
  TokenUser, is_admin, is_worker, Result, ok, ◌>>=◌, ◌>>◌, raise_if, or_raise, forbidden, not_found,
  validation, conflict,
}
use balt_oil.Tanks.Defs.{
  TankTxKind, arrival, issue, transfer_in, transfer_out, adjust, expense, Note, comment, mismatch,
  comment_and_mismatch, initial_balance, correction, FuelTank, TankTransaction, Depot, TankCreate,
  TankUpdate, TankAdjust, TankArrival, TankIssue, TankTransfer, Labels, TankResponse, litres,
  counter_delta,
}
use mathlib.Core.Option

abbrev pub require_view : TokenUser → Result (Unit {0})
require_view actor = raise_if (not (is_worker actor.role)) forbidden

abbrev pub require_admin : TokenUser → Result (Unit {0})
require_admin actor = raise_if (not (is_admin actor.role)) forbidden

-- `_get_tank_locked`. The lock orders the operations on a tank; each runs as one step here.
abbrev pub get_tank_locked : ℕ → Depot → Result FuelTank
get_tank_locked k s = or_raise (lookup k s.tanks) not_found

-- `labels.get(fuel_type)`; the code answers with the fuel's own code where this is `none`.
abbrev pub label_for : Labels → FuelTank → Option Text
label_for [] t = none
label_for ((code, label) ∷ ls) t = if code =str t.fuel_type then some label else label_for ls t

abbrev pub tank_response : Labels → ℕ → FuelTank → TankResponse
tank_response labels k t = record {
  id = k;
  name = t.name;
  fuel_type = t.fuel_type;
  fuel_label = label_for labels t;
  current_volume = t.current_volume;
  counter = t.counter;
  is_active = t.is_active;
}

-- A journal row outside an order and a transfer.
abbrev pub entry :
    ℕ → TankTxKind → ℤ → ℕ → ℕ → TokenUser → Option Text → Option Note → TankTransaction
entry k kind volume before after actor name note = record {
  tank_id = k;
  kind = kind;
  volume = volume;
  counter_before = before;
  counter_after = after;
  order_id = none;
  peer_tank_id = none;
  actor_id = actor.id;
  actor_name = name;
  notes = note;
}

abbrev pub append : List TankTransaction → Depot → Depot
append rows s = record s { journal = s.journal ++ rows }

abbrev pub set_tank : ℕ → FuelTank → Depot → Depot
set_tank k t s = record s { tanks = put k t s.tanks }

unfoldable pub create_tank :
    ℕ → Labels → Option Text → TankCreate → TokenUser → Depot → Result (Depot × TankResponse)
create_tank k labels name data' actor s = do
  require_admin actor
  raise_if (not (any (λ (l : String × Text). l.0 =str data'.fuel_type) labels)) validation
  let t : FuelTank = record {
    name = strip data'.name;
    fuel_type = data'.fuel_type;
    current_volume = data'.initial_volume;
    counter = data'.counter;
    is_active = true;
  }
  let added = set_tank k t s
  let first =
      entry k adjust data'.initial_volume data'.counter data'.counter actor name
        (some initial_balance)
  let s' = if ltb_ℤ (pos 0) data'.initial_volume then append (first ∷ []) added else added
  ok (s', tank_response labels k t)

-- `data.fuel_type not in labels`, for a type that the request gives.
abbrev pub unknown_fuel : Labels → Option String → Bool
unknown_fuel labels none = false
unknown_fuel labels (some f) = not (any (λ (l : String × Text). l.0 =str f) labels)

abbrev pub new_name : Option Text → Text → Text
new_name none old = old
new_name (some n) old = strip n

-- `data.fuel_type` is checked against the catalog after the tank is found and before it is changed.
unfoldable pub update_tank :
    Labels → ℕ → TankUpdate → TokenUser → Depot → Result (Depot × TankResponse)
update_tank labels k data' actor s = do
  require_admin actor
  tank ← get_tank_locked k s
  raise_if (unknown_fuel labels data'.fuel_type) validation
  let t : FuelTank = record tank {
    name = new_name data'.name tank.name;
    fuel_type = or_default data'.fuel_type tank.fuel_type;
    is_active = or_default data'.is_active tank.is_active;
  }
  ok (set_tank k t s, tank_response labels k t)

-- The kinds that forbid the deletion of a tank.
abbrev pub is_real : TankTxKind → Bool
is_real arrival = false
is_real adjust = false
is_real issue = true
is_real expense = true
is_real transfer_in = true
is_real transfer_out = true

-- The rows of the journal go with their tank (ON DELETE CASCADE).
unfoldable pub delete_tank : ℕ → TokenUser → Depot → Result Depot
delete_tank k actor s = do
  require_admin actor
  tank ← get_tank_locked k s
  raise_if (any (λ (tx : TankTransaction). (tx.tank_id == k) && is_real tx.kind) s.journal) conflict
  ok (record {
    tanks = remove k s.tanks;
    journal = keep (λ (tx : TankTransaction). not (tx.tank_id == k)) s.journal;
  })

-- `data.notes or …`: an empty note counts as none.
abbrev pub note_or : Option Text → Note → Note
note_or none d = d
note_or (some []) d = d
note_or (some (c ∷ cs)) d = comment (c ∷ cs)

unfoldable pub adjust_tank :
    Labels → Option Text → ℕ → TankAdjust → TokenUser → Depot → Result (Depot × TankResponse)
adjust_tank labels name k data' actor s = do
  require_admin actor
  raise_if (not (is_some data'.volume) && not (is_some data'.counter)) validation
  tank ← get_tank_locked k s
  let volume = or_default data'.volume tank.current_volume
  let delta = if is_some data'.volume then volume -ℤ tank.current_volume else pos 0
  let counter' = or_default data'.counter tank.counter
  let t : FuelTank = record tank { current_volume = volume; counter = counter' }
  let note = note_or data'.notes (correction delta)
  let tx = entry k adjust (pos (abs delta)) tank.counter counter' actor name (some note)
  ok (append (tx ∷ []) (set_tank k t s), tank_response labels k t)

unfoldable pub record_arrival :
    Labels → Option Text → ℕ → TankArrival → TokenUser → Depot → Result (Depot × TankResponse)
record_arrival labels name k data' actor s = do
  require_view actor
  tank ← get_tank_locked k s
  let t : FuelTank = record tank { current_volume = tank.current_volume +ℤ data'.volume }
  let note = Option.map comment data'.notes
  let tx = entry k arrival data'.volume tank.counter tank.counter actor name note
  ok (append (tx ∷ []) (set_tank k t s), tank_response labels k t)

-- `abs(volume - stated) > 0.5` litres
abbrev pub differs : ℤ → ℤ → Bool
differs volume stated = ltb 50 (abs (volume -ℤ stated))

-- `f"{notes} · {mismatch}" if notes else mismatch`
abbrev pub with_mismatch : Option Text → ℕ → ℤ → Note
with_mismatch none n v = mismatch n v
with_mismatch (some []) n v = mismatch n v
with_mismatch (some (c ∷ cs)) n v = comment_and_mismatch (c ∷ cs) n v

abbrev pub checked_note : Option Text → ℕ → Option ℤ → Option Note
checked_note notes n none = Option.map comment notes
checked_note notes n (some v) =
    if differs (litres n) v then some (with_mismatch notes n v) else Option.map comment notes

-- The answer is the journal row that was written.
unfoldable pub record_issue :
    Option Text → ℕ → TankIssue → TokenUser → Depot → Result (Depot × TankTransaction)
record_issue name k data' actor s = do
  require_view actor
  tank ← get_tank_locked k s
  let volume = counter_delta tank.counter data'.counter_after
  raise_if (leb volume 0) validation
  let t : FuelTank = record tank {
    counter = data'.counter_after;
    current_volume = tank.current_volume -ℤ litres volume;
  }
  let note = checked_note data'.notes volume data'.volume_hint
  let base = entry k issue (litres volume) tank.counter data'.counter_after actor name note
  let tx : TankTransaction = record base { order_id = data'.order_id }
  ok (append (tx ∷ []) (set_tank k t s), tx)

-- The counter after an expense, and its note: with no new reading the counter stays.
abbrev pub expense_reading : ℕ → Option ℕ → ℤ → Option Text → Result (ℕ × Option Note)
expense_reading before none volume notes = ok (before, Option.map comment notes)
expense_reading before (some after) volume notes = do
  raise_if (leb (counter_delta before after) 0) validation
  ok (after, checked_note notes (counter_delta before after) (some volume))

unfoldable pub record_expense_from_tank :
    ℕ → ℤ → Option ℕ → TokenUser → Option Text → Option Text → Depot → Result Depot
record_expense_from_tank k volume counter_after actor name notes s = do
  tank ← get_tank_locked k s
  reading ← expense_reading tank.counter counter_after volume notes
  let t : FuelTank = record tank {
    counter = reading.0;
    current_volume = tank.current_volume -ℤ volume;
  }
  let tx = entry k expense volume tank.counter reading.0 actor name reading.1
  ok (append (tx ∷ []) (set_tank k t s))

-- The two rows of a transfer, each with the other tank as its peer.
abbrev pub outgoing : Option Text → TankTransfer → TokenUser → FuelTank → TankTransaction
outgoing name data' actor src =
    let note = Option.map comment data'.notes in
    record (entry data'.from_tank_id transfer_out data'.volume src.counter src.counter actor name
      note) { peer_tank_id = some data'.to_tank_id }

abbrev pub incoming : Option Text → TankTransfer → TokenUser → FuelTank → TankTransaction
incoming name data' actor dst =
    let note = Option.map comment data'.notes in
    record (entry data'.to_tank_id transfer_in data'.volume dst.counter dst.counter actor name
      note) { peer_tank_id = some data'.from_tank_id }

-- The two rows are locked in the order of their identifiers (the text of a UUID sorts as its
-- number), and told apart again by identifier.
unfoldable pub transfer :
    Labels → Option Text → TankTransfer → TokenUser → Depot → Result (Depot × List TankResponse)
transfer labels name data' actor s = do
  require_view actor
  let a = data'.from_tank_id
  let b = data'.to_tank_id
  raise_if (a == b) validation
  let first_id = if leb a b then a else b
  let second_id = if leb a b then b else a
  first ← get_tank_locked first_id s
  second ← get_tank_locked second_id s
  let src = if first_id == a then first else second
  let dst = if second_id == b then second else first
  let src' : FuelTank = record src { current_volume = src.current_volume -ℤ data'.volume }
  let dst' : FuelTank = record dst { current_volume = dst.current_volume +ℤ data'.volume }
  ok (
    append (outgoing name data' actor src ∷ incoming name data' actor dst ∷ [])
        (set_tank b dst' (set_tank a src' s)),
    tank_response labels a src' ∷ tank_response labels b dst' ∷ [],
  )
