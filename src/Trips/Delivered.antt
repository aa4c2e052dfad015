-- ===== src/Trips/Delivered.antt =====
-- The end of a trip in the journal, and what is booked after any sequence of operations.
use balt_oil.Tanks
use balt_oil.Trips.Booked.{
  Booked, BookedAs, TripBooked, TripBooked-other, TripRow, rows_with, trip_total, trip_total-snoc,
}
use balt_oil.Trips.Inventory.{
  difference_row, expense_note, of_trip, record_adjustment, record_departure_adjustment,
  record_expense, record_reversal_for_cancelled_trip, signed_volume, trip_row, upsert_stock,
  record_arrival,
}
use balt_oil.Trips.Defs.{
  ArrivalRequest, ExpenseRequest, FuelTransaction, Store, Trip, arrival, cancelled, completed,
  in_transit, is_trip_adjustment, is_trip_cancelled, trip_cancelled,
}
use balt_oil.Text.{Text}
use balt_oil.Service.{Result-cases, TokenUser, ok}
use balt_oil.Prelude.Int.{int_laws, pos, ℤ, ◌+ℤ◌, ◌-ℤ◌}
use balt_oil.Prelude.{
  ==-refl, Bool, Bool-cases, List, Option, Option-cases, [], any, arith, inl, inr, ltb, none, refl,
  some, true, ℕ, ◌++◌, ◌<◌, ◌==◌, ◌∷◌, ◌≡◌,
}

-- The rows of a trip before its end.
abbrev pub OnItsWay : ℕ → Trip → List FuelTransaction → Type 0
OnItsWay k t txs =
    BookedAs t.inv_fuel_type in_transit t.volume_planned none (trip_total k txs)
      (any (of_trip k) txs) (rows_with is_trip_adjustment k txs) (rows_with is_trip_cancelled k txs)

difference_row-total :
    (now fuel volume k : ℕ) (t : Trip) (actor : TokenUser)
    → (pos 0 -ℤ pos t.volume_planned) +ℤ signed_volume (difference_row now fuel volume k t actor)
      ≡ pos 0 -ℤ pos volume
difference_row-total now fuel volume k t actor = elim (Bool-cases (ltb t.volume_planned volume)) [
  | inl more ↦ rw more (grind int_laws)
  | inr less ↦ rw less (grind int_laws)
]

difference_row-trip :
    (now fuel volume k : ℕ) (t : Trip) (actor : TokenUser)
    → (difference_row now fuel volume k t actor).trip_id ≡ some k
difference_row-trip now fuel volume k t actor = ground arith

-- A trip that is completed has taken what it delivered.
pub complete-Booked :
    (now k volume : ℕ) (t : Trip) (actor : TokenUser) (s : Store)
    → t.status ≡ completed
    → t.volume_actual ≡ some volume
    → 0 < volume
    → OnItsWay k t s.transactions
    → (TripRow k s.transactions (record_departure_adjustment now k t actor s).transactions)
      × (TripBooked k t (record_departure_adjustment now k t actor s).transactions)
unfolding record_departure_adjustment upsert_stock
complete-Booked now k volume t actor s done actual some_ way = elim (Option-cases t.inv_fuel_type) [
  | inl missing ↦
      let same : (record_departure_adjustment now k t actor s).transactions ≡ s.transactions =
        ground arith in
      (inl same, rw (same, missing) (rw missing at way))
  | inr (fuel, named) ↦
      let (total, unadjusted, unreversed) = rw named at way in
      let tx = difference_row now fuel volume k t actor in
      elim (Bool-cases (volume == t.volume_planned)) [
        | inl exact ↦
            let same : (record_departure_adjustment now k t actor s).transactions ≡ s.transactions =
              ground arith in
            let equal : volume ≡ t.volume_planned = ground arith in
            (inl same, rw (same, named, done) (volume, actual, rw (total, equal) refl))
        | inr differs ↦
            let logged : (record_departure_adjustment now k t actor s).transactions
                ≡ s.transactions ++ (tx ∷ []) =
              ground arith in
            let names = difference_row-trip now fuel volume k t actor in
            let here : of_trip k tx ≡ true = rw names (==-refl k) in
            (
              inr (tx, logged, names),
              rw (logged, named, done)
                  (
                    volume,
                    actual,
                    rw (trip_total-snoc k tx s.transactions, total, here)
                        (difference_row-total now fuel volume k t actor),
                  ),
            )
      ]
]

-- A trip that is cancelled on its way gets its plan back.
pub reversal-Booked :
    (now k : ℕ) (t : Trip) (actor : TokenUser) (s : Store)
    → t.status ≡ cancelled
    → OnItsWay k t s.transactions
    → (TripRow k s.transactions (record_reversal_for_cancelled_trip now k t actor s).transactions)
      × (TripBooked k t (record_reversal_for_cancelled_trip now k t actor s).transactions)
unfolding record_reversal_for_cancelled_trip upsert_stock
reversal-Booked now k t actor s done way = elim (Option-cases t.inv_fuel_type) [
  | inl missing ↦
      let same : (record_reversal_for_cancelled_trip now k t actor s).transactions
          ≡ s.transactions =
        ground arith in
      (inl same, rw (same, missing) (rw missing at way))
  | inr (fuel, named) ↦
      let (total, unadjusted, unreversed) = rw named at way in
      let tx = trip_row arrival fuel t.volume_planned now trip_cancelled k t actor in
      let logged : (record_reversal_for_cancelled_trip now k t actor s).transactions
          ≡ s.transactions ++ (tx ∷ []) =
        ground arith in
      (
        inr (tx, logged, refl),
        rw (logged, named, done)
            (rw (trip_total-snoc k tx s.transactions, total, ==-refl k) (grind int_laws)),
      )
]

-- A row without a trip.
plain-Booked :
    (tx : FuelTransaction) (s s' : Store)
    → s'.trips ≡ s.trips
    → s'.transactions ≡ s.transactions ++ (tx ∷ [])
    → tx.trip_id ≡ none
    → Booked s
    → Booked s'
plain-Booked tx s s' trips logged free fine k t h =
    rw logged (TripBooked-other k t tx s.transactions (rw free refl) (fine k t (rw trips at h)))

pub arrival-Booked :
    (now : ℕ) (known : ℕ → Bool) (data' : ArrivalRequest) (actor : TokenUser) (s s' : Store)
    (tx : FuelTransaction)
    → record_arrival now known data' actor s ≡ ok (s', tx)
    → Booked s
    → Booked s'
unfolding record_arrival upsert_stock
arrival-Booked now known data' actor s s' tx e =
    plain-Booked tx s s' (ground arith) (ground arith) (ground arith)

pub adjustment-Booked :
    (now : ℕ) (known : ℕ → Bool) (fuel : ℕ) (delta : ℤ) (notes : Text) (actor : TokenUser)
    (s s' : Store) (tx : FuelTransaction)
    → record_adjustment now known fuel delta notes actor s ≡ ok (s', tx)
    → Booked s
    → Booked s'
unfolding record_adjustment upsert_stock
adjustment-Booked now known fuel delta notes actor s s' tx e =
    plain-Booked tx s s' (ground arith) (ground arith) (ground arith)

pub expense-Booked :
    (now : ℕ) (known : ℕ → Bool) (data' : ExpenseRequest) (actor : TokenUser) (name : Option Text)
    (s s' : Store) (tx : FuelTransaction)
    → record_expense now known data' actor name s ≡ ok (s', tx)
    → Booked s
    → Booked s'
unfolding record_expense upsert_stock
expense-Booked now known data' actor name s s' tx e = elim (Option-cases data'.tank_id) [
  | inl missing ↦ plain-Booked tx s s' (ground arith) (ground arith) (ground arith)
  | inr (k, given) ↦
      elim (Result-cases (
        Tanks.Ops.record_expense_from_tank k (pos data'.volume) data'.counter_after actor name
          (some (expense_note data')) s.depot)) [
            | inr (x, failed) ↦ absurd (ground arith)
            | inl (depot, taken) ↦ plain-Booked tx s s' (ground arith) (ground arith) (ground arith)
          ]
]
