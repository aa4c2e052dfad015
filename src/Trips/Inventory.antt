-- ===== src/Trips/Inventory.antt =====
-- The operations of inventory_service.py that write. The clock, the fuel catalog (`known` for its
-- labels, `fuel_codes` for its list) and the actor's name are arguments.
use balt_oil.Trips.Defs.{
  ArrivalRequest, ExpenseRequest, FuelTransaction, Store, TransactionNote, TransactionType, Trip,
  arrival, departure, is_departure, is_trip_adjustment, is_trip_cancelled, is_trip_planned,
  trip_adjustment, trip_cancelled, trip_planned, written, other_expense, tank_refuel,
}
use balt_oil.Tanks.Ops.{record_expense_from_tank}
use balt_oil.Text.{Text, strip, codes}
use balt_oil.Service.{
  Result, TokenUser, forbidden, is_admin, is_driver, is_worker, ok, raise_if, validation, ◌>>=◌,
  ◌>>◌,
}
use balt_oil.Redis.{second}
use balt_oil.Table.{Table, lookup, put}
use balt_oil.Prelude.Int.{abs, ltb_ℤ, pos, ℤ, ◌+ℤ◌, ◌-ℤ◌}
use balt_oil.Prelude.{
  Bool, List, Option, [], any, false, if◌then◌else◌, length, ltb, map, none, not, or_default,
  same_id, some, ℕ, ◌&&◌, ◌*◌, ◌++◌, ◌+◌, ◌-◌, ◌==◌, ◌||◌, ◌∷◌,
}
use balt_oil.Tanks
use mathlib.Core.Option

abbrev pub stock_of : ℕ → Table ℤ → ℤ
stock_of fuel_type stock = or_default (lookup fuel_type stock) (pos 0)

unfoldable pub upsert_stock : ℕ → ℤ → Store → Store
upsert_stock fuel_type delta s = record s {
  stock = put fuel_type (stock_of fuel_type s.stock +ℤ delta) s.stock;
}

-- What a row adds to the stock of its fuel.
abbrev pub signed_volume : FuelTransaction → ℤ
signed_volume tx = if is_departure tx.kind then pos 0 -ℤ pos tx.volume else pos tx.volume

abbrev pub log_transaction : FuelTransaction → Store → Store
log_transaction tx s = record s { transactions = s.transactions ++ (tx ∷ []) }

-- `db.add(tx)` with the change of the stock that goes with the row.
abbrev pub post : FuelTransaction → Store → Store
post tx s = upsert_stock tx.fuel_type (signed_volume tx) (log_transaction tx s)

abbrev pub plain_row :
    TransactionType → ℕ → ℕ → ℕ → Option TransactionNote → TokenUser → FuelTransaction
plain_row kind fuel_type volume date notes actor = record {
  kind = kind;
  fuel_type = fuel_type;
  volume = volume;
  transaction_date = date;
  trip_id = none;
  order_id = none;
  driver_id = none;
  expense_kind = none;
  notes = notes;
  created_by_id = actor.id;
}

abbrev pub is_too_late : ℕ → Option ℕ → Bool
is_too_late now none = false
is_too_late now (some date) = ltb (now + 86_400 * second) date

unfoldable pub record_arrival :
    ℕ → (ℕ → Bool) → ArrivalRequest → TokenUser → Store → Result (Store × FuelTransaction)
record_arrival now known data' actor s = do
  raise_if (not (is_worker actor.role)) forbidden
  raise_if (not (known data'.fuel_type)) validation
  raise_if (is_too_late now data'.transaction_date) validation
  let tx =
      plain_row arrival data'.fuel_type data'.volume (or_default data'.transaction_date now)
        (Option.map written data'.notes) actor
  ok (post tx s, tx)

-- The sign of the correction is in the kind of the row.
unfoldable pub record_adjustment :
    ℕ → (ℕ → Bool) → ℕ → ℤ → Text → TokenUser → Store → Result (Store × FuelTransaction)
record_adjustment now known fuel_type delta notes actor s = do
  raise_if (not (is_admin actor.role)) forbidden
  raise_if (not (known fuel_type)) validation
  raise_if (abs delta == 0) validation
  raise_if (length (strip notes) == 0) validation
  let tx =
      plain_row (if ltb_ℤ (pos 0) delta then arrival else departure) fuel_type (abs delta) now
        (some (written (codes "Корректировка админа: " ++ strip notes))) actor
  ok (upsert_stock fuel_type delta (log_transaction tx s), tx)

-- The label of the kind, with the comment if there is one.
abbrev pub expense_note : ExpenseRequest → Text
expense_note data' =
    let label : Text = elim data'.expense_kind [
      | tank_refuel ↦ codes "В бак"
      | other_expense ↦ codes "Иное"
    ] in
    let comment = strip (or_default data'.notes []) in
    if length comment == 0 then label else label ++ codes ": " ++ comment

abbrev pub expense_row : ℕ → ExpenseRequest → TokenUser → FuelTransaction
expense_row now data' actor =
    let row =
      plain_row departure data'.fuel_type data'.volume now (some (written (expense_note data')))
        actor in
    record row {
      driver_id = if is_driver actor.role then some actor.id else none;
      expense_kind = some data'.expense_kind;
    }

-- An expense from a tank is booked on the tank in the same transaction.
unfoldable pub record_expense :
    ℕ
    → (ℕ → Bool)
    → ExpenseRequest
    → TokenUser
    → Option Text
    → Store
    → Result (Store × FuelTransaction)
record_expense now known data' actor name s = do
  raise_if (not (is_worker actor.role)) forbidden
  raise_if (not (known data'.fuel_type)) validation
  let tx = expense_row now data' actor
  let s' = post tx s
  elim data'.tank_id [
    | none ↦ ok (s', tx)
    | some tank_id ↦
        record_expense_from_tank tank_id (pos data'.volume) data'.counter_after actor name
          (some (expense_note data')) s'.depot
        >>= λ (depot : Tanks.Defs.Depot). ok (record s' { depot = depot }, tx)
  ]

-- A row of the trip `k`.
abbrev pub trip_row :
    TransactionType → ℕ → ℕ → ℕ → TransactionNote → ℕ → Trip → TokenUser → FuelTransaction
trip_row kind fuel_type volume date note k t actor = record {
  kind = kind;
  fuel_type = fuel_type;
  volume = volume;
  transaction_date = date;
  trip_id = some k;
  order_id = some t.order_id;
  driver_id = some t.driver_id;
  expense_kind = none;
  notes = some note;
  created_by_id = actor.id;
}

abbrev pub of_trip : ℕ → FuelTransaction → Bool
of_trip k tx = same_id tx.trip_id k

abbrev pub has_row : (FuelTransaction → Bool) → ℕ → Store → Bool
has_row p k s = any (λ (tx : FuelTransaction). of_trip k tx && p tx) s.transactions

unfoldable pub record_departure_on_start : ℕ → ℕ → Trip → TokenUser → Store → Store
record_departure_on_start now k t actor s = elim t.inv_fuel_type [
  | none ↦ s
  | some fuel ↦
      if has_row (λ (tx : FuelTransaction). is_departure tx.kind && is_trip_planned tx.notes) k s
      then s
      else post
          (trip_row departure fuel t.volume_planned (or_default t.departed_at now) trip_planned k t
            actor)
          s
]

-- The row for the difference between fact and plan, both in hundredths.
abbrev pub difference_row : ℕ → ℕ → ℕ → ℕ → Trip → TokenUser → FuelTransaction
difference_row now fuel volume k t actor =
    let date = or_default t.arrived_at now in
    if ltb t.volume_planned volume
    then trip_row departure fuel (volume - t.volume_planned) date trip_adjustment k t actor
    else trip_row arrival fuel (t.volume_planned - volume) date trip_adjustment k t actor

abbrev pub adjust_to : ℕ → ℕ → ℕ → ℕ → Trip → TokenUser → Store → Store
adjust_to now fuel volume k t actor s =
    if volume == 0
      || volume == t.volume_planned
      || has_row (λ (tx : FuelTransaction). is_trip_adjustment tx.notes) k s
    then s
    else post (difference_row now fuel volume k t actor) s

unfoldable pub record_departure_adjustment : ℕ → ℕ → Trip → TokenUser → Store → Store
record_departure_adjustment now k t actor s = elim t.inv_fuel_type [
  | none ↦ s
  | some fuel ↦ elim t.volume_actual [
    | none ↦ s
    | some volume ↦ adjust_to now fuel volume k t actor s
  ]
]

unfoldable pub record_reversal_for_cancelled_trip : ℕ → ℕ → Trip → TokenUser → Store → Store
record_reversal_for_cancelled_trip now k t actor s = elim t.inv_fuel_type [
  | none ↦ s
  | some fuel ↦
      if has_row (λ (tx : FuelTransaction). is_trip_cancelled tx.notes) k s
      then s
      else post (trip_row arrival fuel t.volume_planned now trip_cancelled k t actor) s
]

-- The signed sum of the rows of a fuel.
abbrev pub balance_of : ℕ → List FuelTransaction → ℤ
balance_of fuel [] = pos 0
balance_of fuel (tx ∷ txs) =
    (if tx.fuel_type == fuel then signed_volume tx else pos 0) +ℤ balance_of fuel txs

abbrev pub reset_stock : List FuelTransaction → List ℕ → Table ℤ → Table ℤ
reset_stock txs [] stock = stock
reset_stock txs (fuel ∷ rest) stock = reset_stock txs rest (put fuel (balance_of fuel txs) stock)

-- The fuels with rows, then those of the catalog; a fuel that is met twice gets the same value.
unfoldable pub reconcile_stock : List ℕ → TokenUser → Store → Result Store
reconcile_stock fuel_codes actor s = do
  raise_if (not (is_admin actor.role)) forbidden
  let fuels : List ℕ = map (λ (tx : FuelTransaction). tx.fuel_type) s.transactions ++ fuel_codes
  ok (record s { stock = reset_stock s.transactions fuels s.stock })
