-- ===== src/Trips/Ledger.antt =====
-- Every operation keeps what is booked for the trips in step with their statuses.
use balt_oil.Trips.Delivered.{
  OnItsWay, adjustment-Booked, arrival-Booked, complete-Booked, expense-Booked, reversal-Booked,
}
use balt_oil.Trips.Booked.{
  Booked, TripBooked, Unbooked, fresh-Unbooked, put-Booked, start-Booked, trip_total-none,
}
use balt_oil.Trips.History.{
  IsFresh, StoreReach, StoreStep, abandoned, arrived, auto_started, begun, cancel_trip-stores,
  complete_trip-stores, corrected, create_trip-Posts, created, finished, here, next, spent,
  start_trip-stores,
}
use balt_oil.Trips.Ops.{
  auto_create_and_start, auto_trip, cancel_trip, complete_trip, create_trip, running_trips,
  set_trip, start_trip,
}
use balt_oil.Trips.Inventory.{
  record_departure_adjustment, record_departure_on_start, record_reversal_for_cancelled_trip,
  upsert_stock,
}
use balt_oil.Trips.Defs.{
  FuelTransaction, Store, Trip, TripAutoStartRequest, TripCreateRequest, cancelled, in_transit,
  is_completed, is_in_transit, is_planned, planned,
}
use balt_oil.Text.{Text}
use balt_oil.Service.{TokenUser, ok}
use balt_oil.Prelude.{
  Bool, Bool-cases, List, List-cases, Option, Option-cases, arith, false, inl, inr, refl, true, ℕ,
  ◌<◌, ◌≡◌,
}

planned-rows :
    (k : ℕ) (old t : Trip) (txs : List FuelTransaction)
    → is_planned old.status ≡ true
    → t.inv_fuel_type ≡ old.inv_fuel_type
    → TripBooked k old txs
    → Unbooked k t txs
planned-rows k old t txs was fuel fine = elim (Option-cases old.inv_fuel_type) [
  | inl missing ↦ rw (fuel, missing) (rw missing at fine)
  | inr (f, named) ↦
      let status : old.status ≡ planned = ground arith in
      rw (fuel, named) (rw (named, status) at fine)
]

way-rows :
    (k : ℕ) (old t : Trip) (txs : List FuelTransaction)
    → is_in_transit old.status ≡ true
    → t.volume_planned ≡ old.volume_planned
    → t.inv_fuel_type ≡ old.inv_fuel_type
    → TripBooked k old txs
    → OnItsWay k t txs
way-rows k old t txs was plan fuel fine = elim (Option-cases old.inv_fuel_type) [
  | inl missing ↦ rw (fuel, missing) (rw missing at fine)
  | inr (f, named) ↦
      let status : old.status ≡ in_transit = ground arith in
      rw (fuel, named, plan) (rw (named, status) at fine)
]

-- A trip that is cancelled before it sets out, or once more, keeps its rows.
idle-cancelled :
    (k : ℕ) (old t : Trip) (txs : List FuelTransaction)
    → is_completed old.status ≡ false
    → is_in_transit old.status ≡ false
    → t.status ≡ cancelled
    → t.inv_fuel_type ≡ old.inv_fuel_type
    → TripBooked k old txs
    → TripBooked k t txs
idle-cancelled k old t txs unfinished waiting is fuel fine = elim (Option-cases old.inv_fuel_type) [
  | inl missing ↦ rw (fuel, missing) (rw missing at fine)
  | inr (f, named) ↦ elim (Bool-cases (is_planned old.status)) [
    | inl early ↦
        let status : old.status ≡ planned = ground arith in
        rw (fuel, named, is) ((rw (named, status) at fine).0)
    | inr late ↦
        let status : old.status ≡ cancelled = ground arith in
        rw (fuel, named, is) (rw (named, status) at fine)
  ]
]

start-trips :
    (now k : ℕ) (t : Trip) (actor : TokenUser) (s : Store)
    → (record_departure_on_start now k t actor s).trips ≡ s.trips
unfolding record_departure_on_start upsert_stock
start-trips now k t actor s = ground arith

adjustment-trips :
    (now k : ℕ) (t : Trip) (actor : TokenUser) (s : Store)
    → (record_departure_adjustment now k t actor s).trips ≡ s.trips
unfolding record_departure_adjustment upsert_stock
adjustment-trips now k t actor s = ground arith

reversal-trips :
    (now k : ℕ) (t : Trip) (actor : TokenUser) (s : Store)
    → (record_reversal_for_cancelled_trip now k t actor s).trips ≡ s.trips
unfolding record_reversal_for_cancelled_trip upsert_stock
reversal-trips now k t actor s = ground arith

-- A trip that sets out, old or new.
departs-Booked :
    (now k : ℕ) (t : Trip) (actor : TokenUser) (s : Store)
    → t.status ≡ in_transit
    → Unbooked k t s.transactions
    → Booked s
    → Booked (record_departure_on_start now k t actor (set_trip k t s))
departs-Booked now k t actor s moving early fine =
    let (row, new) = start-Booked now k t actor (set_trip k t s) moving early in
    put-Booked k t s (record_departure_on_start now k t actor (set_trip k t s))
      (start-trips now k t actor (set_trip k t s)) row new fine

auto-Booked :
    (now k : ℕ) (data' : TripAutoStartRequest) (actor : TokenUser) (s s' : Store) (row : ℕ × Trip)
    → IsFresh k s
    → auto_create_and_start now k data' actor s ≡ ok (s', row)
    → Booked s
    → Booked s'
unfolding auto_create_and_start
auto-Booked now k data' actor s s' row fresh e fine =
    elim (List-cases (running_trips data'.order_id s.trips)) [
      | inl none_runs ↦
          let t = auto_trip now data' in
          let same : s' ≡ record_departure_on_start now k t actor (set_trip k t s) = ground arith in
          rw same
            (departs-Booked now k t actor s refl (fresh-Unbooked k t s.transactions fresh.1) fine)
      | inr (first, rest, run) ↦ let same : s' ≡ s = ground arith in rw same fine
    ]

create_trip-status :
    (k : ℕ) (fuel_codes : List ℕ) (data' : TripCreateRequest) (actor : TokenUser) (s s' : Store)
    (t : Trip)
    → create_trip k fuel_codes data' actor s ≡ ok (s', t)
    → t.status ≡ planned
unfolding create_trip
create_trip-status k fuel_codes data' actor s s' t e = ground arith

created-Booked :
    (k : ℕ) (fuel_codes : List ℕ) (data' : TripCreateRequest) (actor : TokenUser) (s s' : Store)
    (t : Trip)
    → IsFresh k s
    → create_trip k fuel_codes data' actor s ≡ ok (s', t)
    → Booked s
    → Booked s'
created-Booked k fuel_codes data' actor s s' t fresh e fine =
    let early = create_trip-status k fuel_codes data' actor s s' t e in
    let new : TripBooked k t s.transactions = elim (Option-cases t.inv_fuel_type) [
      | inl missing ↦ rw missing (trip_total-none k s.transactions fresh.1)
      | inr (fuel, named) ↦ rw (named, early) (trip_total-none k s.transactions fresh.1, fresh.1)
    ] in
    rw (create_trip-Posts k fuel_codes data' actor s s' t e)
      (put-Booked k t s (set_trip k t s) refl (inl refl) new fine)

abandoned-Booked :
    (now k : ℕ) (actor : TokenUser) (s s' : Store) (t : Trip)
    → cancel_trip now k actor s ≡ ok (s', t)
    → Booked s
    → Booked s'
abandoned-Booked now k actor s s' t e fine =
    let (old, found, was, is, plan, fuel, same) = cancel_trip-stores now k actor s s' t e in
    elim (Bool-cases (is_in_transit old.status)) [
      | inl moving ↦
          let (row, new) =
            reversal-Booked now k t actor (set_trip k t s) is
              (way-rows k old t s.transactions moving plan fuel (fine k old found)) in
          rw (same, moving)
            (put-Booked k t s (record_reversal_for_cancelled_trip now k t actor (set_trip k t s))
              (reversal-trips now k t actor (set_trip k t s)) row new fine)
      | inr waiting ↦
          rw (same, waiting)
            (put-Booked k t s (set_trip k t s) refl (inl refl)
              (idle-cancelled k old t s.transactions was waiting is fuel (fine k old found)) fine)
    ]

begun-Booked :
    (now k : ℕ) (notes : Option Text) (actor : TokenUser) (s s' : Store) (t : Trip)
    → start_trip now k notes actor s ≡ ok (s', t)
    → Booked s
    → Booked s'
begun-Booked now k notes actor s s' t e fine =
    let (old, found, was, is, plan, fuel, same) = start_trip-stores now k notes actor s s' t e in
    rw same (
      departs-Booked now k t actor s is
        (planned-rows k old t s.transactions was fuel (fine k old found)) fine)

finished-Booked :
    (now k volume : ℕ) (notes : Option Text) (accepted : Bool) (actor : TokenUser) (s s' : Store)
    (t : Trip)
    → 0 < volume
    → complete_trip now k volume notes accepted actor s ≡ ok (s', t)
    → Booked s
    → Booked s'
finished-Booked now k volume notes accepted actor s s' t some_ e fine =
    let (old, found, was, is, actual, plan, fuel, same) =
      complete_trip-stores now k volume notes accepted actor s s' t e in
    let (row, new) =
      complete-Booked now k volume t actor (set_trip k t s) is actual some_
        (way-rows k old t s.transactions was plan fuel (fine k old found)) in
    rw same (
      put-Booked k t s (record_departure_adjustment now k t actor (set_trip k t s))
        (adjustment-trips now k t actor (set_trip k t s)) row new fine)

StoreStep-Booked : (s s' : Store) → StoreStep s s' → Booked s → Booked s'
StoreStep-Booked s s' (arrived now known data' actor tx e) =
    arrival-Booked now known data' actor s s' tx e
StoreStep-Booked s s' (corrected now known fuel delta notes actor tx e) =
    adjustment-Booked now known fuel delta notes actor s s' tx e
StoreStep-Booked s s' (spent now known data' actor name tx e) =
    expense-Booked now known data' actor name s s' tx e
StoreStep-Booked s s' (auto_started now k data' actor row fresh e) =
    auto-Booked now k data' actor s s' row fresh e
StoreStep-Booked s s' (created k fuel_codes data' actor t fresh e) =
    created-Booked k fuel_codes data' actor s s' t fresh e
StoreStep-Booked s s' (begun now k notes actor t e) = begun-Booked now k notes actor s s' t e
StoreStep-Booked s s' (finished now k volume notes accepted actor t some_ e) =
    finished-Booked now k volume notes accepted actor s s' t some_ e
StoreStep-Booked s s' (abandoned now k actor t e) = abandoned-Booked now k actor s s' t e

-- After any sequence of operations the rows of each trip with a fuel sum up to what its status
-- says: nothing for a planned or a cancelled trip, the planned volume taken for one on its way,
-- and the delivered volume taken for a completed one. A trip without a fuel has taken nothing.
pub StoreReach-Booked : {s s' : Store} → Booked s → StoreReach s s' → Booked s'
StoreReach-Booked fine here = fine
StoreReach-Booked fine (next {t = t} {u = u} r step) =
    StoreStep-Booked t u step (StoreReach-Booked fine r)
