-- ===== src/Trips/Defs.antt =====
-- Rows of the trips and of the stock (app/models/trip.py, fuel_transaction.py, fuel_stock.py and
-- vehicle.py) and the requests of app/schemas. A volume is a whole number of hundredths of a litre,
-- a fuel code is a number. The columns that are only copied for the reports (order number, client,
-- names, address, supplier) are left out.
use balt_oil.Tanks
use balt_oil.Text.{Text}
use balt_oil.Table.{Table}
use balt_oil.Prelude.Int.{ℤ}
use balt_oil.Prelude.{Bool, List, Option, false, some, true, ℕ}

pub data TripStatus : Type 0 where
  planned in_transit completed cancelled : TripStatus

pub record Trip : Type 0 where
  pub order_id : ℕ
  pub driver_id : ℕ
  pub vehicle_id : Option ℕ
  pub status : TripStatus
  pub volume_planned : ℕ
  pub volume_actual : Option ℕ
  pub departed_at : Option ℕ
  pub arrived_at : Option ℕ
  pub driver_notes : Option Text
  pub inv_fuel_type : Option ℕ
  pub is_archived : Bool

pub data TransactionType : Type 0 where
  arrival departure : TransactionType

-- The notes that the code compares with, and any other text.
pub data TransactionNote : Type 0 where
  trip_planned trip_adjustment trip_cancelled : TransactionNote
  written : Text → TransactionNote

pub data ExpenseKind : Type 0 where
  tank_refuel other_expense : ExpenseKind

pub record FuelTransaction : Type 0 where
  pub kind : TransactionType
  pub fuel_type : ℕ
  pub volume : ℕ
  pub transaction_date : ℕ
  pub trip_id : Option ℕ
  pub order_id : Option ℕ
  pub driver_id : Option ℕ
  pub expense_kind : Option ExpenseKind
  pub notes : Option TransactionNote
  pub created_by_id : ℕ

pub record Vehicle : Type 0 where
  pub assigned_driver_id : Option ℕ
  pub is_active : Bool
  pub is_archived : Bool

-- The tables: `stock` is `fuel_stock`, and `depot` the tanks with their journal.
pub record Store : Type 0 where
  pub trips : Table Trip
  pub vehicles : Table Vehicle
  pub transactions : List FuelTransaction
  pub stock : Table ℤ
  pub depot : Tanks.Defs.Depot

pub record TripAutoStartRequest : Type 0 where
  pub order_id : ℕ
  pub driver_id : ℕ
  pub volume_planned : ℕ
  pub inv_fuel_type : Option ℕ

pub record TripCreateRequest : Type 0 where
  pub order_id : ℕ
  pub vehicle_id : Option ℕ
  pub volume_planned : ℕ
  pub driver_notes : Option Text
  pub driver_id : Option ℕ
  pub inv_fuel_type : Option ℕ

pub record ArrivalRequest : Type 0 where
  pub fuel_type : ℕ
  pub volume : ℕ
  pub transaction_date : Option ℕ
  pub notes : Option Text

pub record ExpenseRequest : Type 0 where
  pub fuel_type : ℕ
  pub volume : ℕ
  pub expense_kind : ExpenseKind
  pub tank_id : Option ℕ
  pub counter_after : Option ℕ
  pub notes : Option Text

abbrev pub is_planned : TripStatus → Bool
is_planned planned = true
is_planned _ = false

abbrev pub is_in_transit : TripStatus → Bool
is_in_transit in_transit = true
is_in_transit _ = false

abbrev pub is_completed : TripStatus → Bool
is_completed completed = true
is_completed _ = false

abbrev pub is_departure : TransactionType → Bool
is_departure departure = true
is_departure _ = false

abbrev pub is_trip_planned : Option TransactionNote → Bool
is_trip_planned (some trip_planned) = true
is_trip_planned _ = false

abbrev pub is_trip_adjustment : Option TransactionNote → Bool
is_trip_adjustment (some trip_adjustment) = true
is_trip_adjustment _ = false

abbrev pub is_trip_cancelled : Option TransactionNote → Bool
is_trip_cancelled (some trip_cancelled) = true
is_trip_cancelled _ = false
