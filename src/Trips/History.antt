-- ===== src/Trips/History.antt =====
-- Sequences of the operations of trip_service.py and inventory_service.py.
use balt_oil.Trips.Stock.{
  Posts, Posts-Stocked, Stocked, record_adjustment-Posts, record_arrival-Posts,
  record_departure_adjustment-Posts, record_departure_on_start-Posts, record_expense-Posts,
  record_reversal-Posts,
}
use balt_oil.Trips.Ops.{
  auto_create_and_start, auto_trip, cancel_trip, complete_trip, create_trip, running_trips,
  set_trip, start_trip,
}
use balt_oil.Trips.Inventory.{
  of_trip, record_adjustment, record_arrival, record_departure_adjustment,
  record_departure_on_start, record_expense, record_reversal_for_cancelled_trip,
}
use balt_oil.Trips.Defs.{
  ArrivalRequest, ExpenseRequest, FuelTransaction, Store, Trip, TripAutoStartRequest,
  TripCreateRequest, cancelled, completed, in_transit, is_completed, is_in_transit, is_planned,
}
use balt_oil.Text.{Text}
use balt_oil.Service.{TokenUser, ok}
use balt_oil.Table.{lookup}
use balt_oil.Prelude.Int.{ℤ}
use balt_oil.Prelude.{
  Bool, Bool-cases, List, List-cases, Option, Option-cases, any, arith, false, if◌then◌else◌, inl,
  inr, none, refl, some, true, ℕ, ◌<◌, ◌≡◌,
}

-- One successful request. Volumes are above 0, as the schemas have it, and a new trip has an
-- identifier that neither a trip nor a transaction names.
abbrev pub IsFresh : ℕ → Store → Type 0
IsFresh k s = (lookup k s.trips ≡ none) × (any (of_trip k) s.transactions ≡ false)

pub data StoreStep (s s' : Store) : Type 0 where
  arrived :
      (now : ℕ) (known : ℕ → Bool) (data' : ArrivalRequest) (actor : TokenUser)
      (tx : FuelTransaction)
      → record_arrival now known data' actor s ≡ ok (s', tx)
      → StoreStep s s'
  corrected :
      (now : ℕ) (known : ℕ → Bool) (fuel : ℕ) (delta : ℤ) (notes : Text) (actor : TokenUser)
      (tx : FuelTransaction)
      → record_adjustment now known fuel delta notes actor s ≡ ok (s', tx)
      → StoreStep s s'
  spent :
      (now : ℕ) (known : ℕ → Bool) (data' : ExpenseRequest) (actor : TokenUser) (name : Option Text)
      (tx : FuelTransaction)
      → record_expense now known data' actor name s ≡ ok (s', tx)
      → StoreStep s s'
  auto_started :
      (now k : ℕ) (data' : TripAutoStartRequest) (actor : TokenUser) (row : ℕ × Trip)
      → IsFresh k s
      → auto_create_and_start now k data' actor s ≡ ok (s', row)
      → StoreStep s s'
  created :
      (k : ℕ) (fuel_codes : List ℕ) (data' : TripCreateRequest) (actor : TokenUser) (t : Trip)
      → IsFresh k s
      → create_trip k fuel_codes data' actor s ≡ ok (s', t)
      → StoreStep s s'
  begun :
      (now k : ℕ) (notes : Option Text) (actor : TokenUser) (t : Trip)
      → start_trip now k notes actor s ≡ ok (s', t)
      → StoreStep s s'
  finished :
      (now k volume : ℕ) (notes : Option Text) (accepted : Bool) (actor : TokenUser) (t : Trip)
      → 0 < volume
      → complete_trip now k volume notes accepted actor s ≡ ok (s', t)
      → StoreStep s s'
  abandoned :
      (now k : ℕ) (actor : TokenUser) (t : Trip)
      → cancel_trip now k actor s ≡ ok (s', t)
      → StoreStep s s'

pub data StoreReach (s : Store) : Store → Type 0 where
  here : StoreReach s s
  next : {t u : Store} → StoreReach s t → StoreStep t u → StoreReach s u

auto_create_and_start-Posts :
    (now k : ℕ) (data' : TripAutoStartRequest) (actor : TokenUser) (s s' : Store) (row : ℕ × Trip)
    → auto_create_and_start now k data' actor s ≡ ok (s', row)
    → Posts s s'
unfolding auto_create_and_start
auto_create_and_start-Posts now k data' actor s s' row e =
    elim (List-cases (running_trips data'.order_id s.trips)) [
      | inl none_runs ↦
          let t = auto_trip now data' in
          let same : s' ≡ record_departure_on_start now k t actor (set_trip k t s) = ground arith in
          rw same (record_departure_on_start-Posts now k t actor (set_trip k t s))
      | inr (first, rest, run) ↦ let same : s' ≡ s = ground arith in rw same (inl (refl, refl))
    ]

pub create_trip-Posts :
    (k : ℕ) (fuel_codes : List ℕ) (data' : TripCreateRequest) (actor : TokenUser) (s s' : Store)
    (t : Trip)
    → create_trip k fuel_codes data' actor s ≡ ok (s', t)
    → s' ≡ set_trip k t s
unfolding create_trip
create_trip-Posts k fuel_codes data' actor s s' t e = ground arith

-- The shape of a successful start.
pub start_trip-stores :
    (now k : ℕ) (notes : Option Text) (actor : TokenUser) (s s' : Store) (t : Trip)
    → start_trip now k notes actor s ≡ ok (s', t)
    → (old : Trip) × (lookup k s.trips ≡ some old)
      × (is_planned old.status ≡ true)
      × (t.status ≡ in_transit)
      × (t.volume_planned ≡ old.volume_planned)
      × (t.inv_fuel_type ≡ old.inv_fuel_type)
      × (s' ≡ record_departure_on_start now k t actor (set_trip k t s))
unfolding start_trip
start_trip-stores now k notes actor s s' t e = elim (Option-cases (lookup k s.trips)) [
  | inl missing ↦ absurd (ground arith)
  | inr (old, found) ↦
      (old, found, ground arith, ground arith, ground arith, ground arith, ground arith)
]

pub complete_trip-stores :
    (now k volume : ℕ) (notes : Option Text) (accepted : Bool) (actor : TokenUser) (s s' : Store)
    (t : Trip)
    → complete_trip now k volume notes accepted actor s ≡ ok (s', t)
    → (old : Trip) × (lookup k s.trips ≡ some old)
      × (is_in_transit old.status ≡ true)
      × (t.status ≡ completed)
      × (t.volume_actual ≡ some volume)
      × (t.volume_planned ≡ old.volume_planned)
      × (t.inv_fuel_type ≡ old.inv_fuel_type)
      × (s' ≡ record_departure_adjustment now k t actor (set_trip k t s))
unfolding complete_trip
complete_trip-stores now k volume notes accepted actor s s' t e =
    elim (Option-cases (lookup k s.trips)) [
      | inl missing ↦ absurd (ground arith)
      | inr (old, found) ↦ (
        old,
        found,
        ground arith,
        ground arith,
        ground arith,
        ground arith,
        ground arith,
        ground arith,
      )
    ]

pub cancel_trip-stores :
    (now k : ℕ) (actor : TokenUser) (s s' : Store) (t : Trip)
    → cancel_trip now k actor s ≡ ok (s', t)
    → (old : Trip) × (lookup k s.trips ≡ some old)
      × (is_completed old.status ≡ false)
      × (t.status ≡ cancelled)
      × (t.volume_planned ≡ old.volume_planned)
      × (t.inv_fuel_type ≡ old.inv_fuel_type)
      × (s' ≡ (
          if is_in_transit old.status
          then record_reversal_for_cancelled_trip now k t actor (set_trip k t s)
          else set_trip k t s))
unfolding cancel_trip
cancel_trip-stores now k actor s s' t e = elim (Option-cases (lookup k s.trips)) [
  | inl missing ↦ absurd (ground arith)
  | inr (old, found) ↦
      (old, found, ground arith, ground arith, ground arith, ground arith, ground arith)
]

pub StoreStep-Posts : (s s' : Store) → StoreStep s s' → Posts s s'
StoreStep-Posts s s' (arrived now known data' actor tx e) =
    record_arrival-Posts now known data' actor s s' tx e
StoreStep-Posts s s' (corrected now known fuel delta notes actor tx e) =
    record_adjustment-Posts now known fuel delta notes actor s s' tx e
StoreStep-Posts s s' (spent now known data' actor name tx e) =
    record_expense-Posts now known data' actor name s s' tx e
StoreStep-Posts s s' (auto_started now k data' actor row fresh e) =
    auto_create_and_start-Posts now k data' actor s s' row e
StoreStep-Posts s s' (created k fuel_codes data' actor t fresh e) =
    rw (create_trip-Posts k fuel_codes data' actor s s' t e) (inl (refl, refl))
StoreStep-Posts s s' (begun now k notes actor t e) =
    let (old, found, was, is, plan, fuel, same) = start_trip-stores now k notes actor s s' t e in
    rw same (record_departure_on_start-Posts now k t actor (set_trip k t s))
StoreStep-Posts s s' (finished now k volume notes accepted actor t some_ e) =
    let (old, found, was, is, actual, plan, fuel, same) =
      complete_trip-stores now k volume notes accepted actor s s' t e in
    rw same (record_departure_adjustment-Posts now k t actor (set_trip k t s))
StoreStep-Posts s s' (abandoned now k actor t e) =
    let (old, found, was, is, plan, fuel, same) = cancel_trip-stores now k actor s s' t e in
    elim (Bool-cases (is_in_transit old.status)) [
      | inl moving ↦ rw (same, moving) (record_reversal-Posts now k t actor (set_trip k t s))
      | inr waiting ↦ rw (same, waiting) (inl (refl, refl))
    ]

-- After any sequence of arrivals, corrections, expenses and trips the stock of every fuel is the
-- signed sum of its transactions.
pub StoreReach-Stocked : {s s' : Store} → Stocked s → StoreReach s s' → Stocked s'
StoreReach-Stocked fine here = fine
StoreReach-Stocked fine (next {t = t} {u = u} r step) =
    Posts-Stocked t u (StoreStep-Posts t u step) (StoreReach-Stocked fine r)
