-- ===== src/Trips/Ops.antt =====
-- The operations of trip_service.py. The clock, the new identifier, the codes of the fuel catalog
-- and the answer of order_service to a status change are arguments; the requests that start_trip
-- and cancel_trip send to order_service have no effect here, as the code ignores their failure.
use balt_oil.Trips.Inventory.{
  record_departure_adjustment, record_departure_on_start, record_reversal_for_cancelled_trip,
}
use balt_oil.Trips.Defs.{
  Store, Trip, TripAutoStartRequest, TripCreateRequest, Vehicle, cancelled, completed, in_transit,
  is_completed, is_in_transit, is_planned, planned,
}
use balt_oil.Text.{Text}
use balt_oil.Service.{
  Result, TokenUser, err, forbidden, internal_error, is_driver, is_worker, not_found, ok, or_raise,
  raise_if, validation, ◌>>=◌, ◌>>◌,
}
use balt_oil.Table.{Table, lookup, put}
use balt_oil.Prelude.{
  Bool, List, Option, [], any, false, if◌then◌else◌, is_some, keep, length, ltb, none, not, same_id,
  some, ℕ, ◌&&◌, ◌*◌, ◌==◌, ◌||◌, ◌∷◌,
}

-- `_get_trip`
abbrev pub get_trip : ℕ → Store → Option Trip
get_trip k s = elim (lookup k s.trips) [
  | none ↦ none
  | some t ↦ if t.is_archived then none else some t
]

-- `_assert_driver_owns`
abbrev pub foreign_driver : Trip → TokenUser → Bool
foreign_driver t actor = is_driver actor.role && not (t.driver_id == actor.id)

abbrev pub set_trip : ℕ → Trip → Store → Store
set_trip k t s = record s { trips = put k t s.trips }

-- A trip of the order that is planned or on its way.
abbrev pub is_running : ℕ → Trip → Bool
is_running order_id t =
    t.order_id == order_id && (is_planned t.status || is_in_transit t.status) && not t.is_archived

abbrev pub running_trips : ℕ → Table Trip → List (ℕ × Trip)
running_trips order_id trips = keep (λ (row : ℕ × Trip). is_running order_id row.1) trips

abbrev pub auto_trip : ℕ → TripAutoStartRequest → Trip
auto_trip now data' = record {
  order_id = data'.order_id;
  driver_id = data'.driver_id;
  vehicle_id = none;
  status = in_transit;
  volume_planned = data'.volume_planned;
  volume_actual = none;
  departed_at = some now;
  arrived_at = none;
  driver_notes = none;
  inv_fuel_type = data'.inv_fuel_type;
  is_archived = false;
}

-- `scalar_one_or_none` raises where two trips of the order run.
unfoldable pub auto_create_and_start :
    ℕ → ℕ → TripAutoStartRequest → TokenUser → Store → Result (Store × (ℕ × Trip))
auto_create_and_start now id data' actor s = elim (running_trips data'.order_id s.trips) [
  | [] ↦
      let t = auto_trip now data' in
      ok (record_departure_on_start now id t actor (set_trip id t s), (id, t))
  | row ∷ rest ↦ elim rest [ [] ↦ ok (s, row) | _ ∷ _ ↦ err internal_error ]
]

-- The driver of a new trip: the actor, or whom an employee names.
abbrev pub chosen_driver : TripCreateRequest → TokenUser → Result ℕ
chosen_driver data' actor =
    if is_driver actor.role then ok actor.id else or_raise data'.driver_id validation

abbrev pub check_vehicle : TripCreateRequest → TokenUser → Store → Result (Unit {0})
check_vehicle data' actor s = elim data'.vehicle_id [
  | none ↦ ok tt
  | some vehicle_id ↦ or_raise (lookup vehicle_id s.vehicles) not_found >>= λ (v : Vehicle).
      raise_if v.is_archived not_found
      >> raise_if (not v.is_active) validation
      >> raise_if
          (is_driver actor.role
            && is_some v.assigned_driver_id
            && not (same_id v.assigned_driver_id actor.id))
          forbidden
]

-- An unknown fuel is refused, unless the catalog is empty.
abbrev pub unknown_fuel : List ℕ → Option ℕ → Bool
unknown_fuel fuel_codes none = false
unknown_fuel fuel_codes (some fuel) =
    not (length fuel_codes == 0) && not (any (λ code. code == fuel) fuel_codes)

unfoldable pub create_trip :
    ℕ → List ℕ → TripCreateRequest → TokenUser → Store → Result (Store × Trip)
create_trip id fuel_codes data' actor s = do
  raise_if (not (is_worker actor.role)) forbidden
  driver_id ← chosen_driver data' actor
  check_vehicle data' actor s
  raise_if (unknown_fuel fuel_codes data'.inv_fuel_type) validation
  let t : Trip = record {
    order_id = data'.order_id;
    driver_id = driver_id;
    vehicle_id = data'.vehicle_id;
    status = planned;
    volume_planned = data'.volume_planned;
    volume_actual = none;
    departed_at = none;
    arrived_at = none;
    driver_notes = data'.driver_notes;
    inv_fuel_type = data'.inv_fuel_type;
    is_archived = false;
  }
  ok (set_trip id t s, t)

-- `if data.driver_notes is not None: trip.driver_notes = data.driver_notes`
abbrev pub new_notes : Option Text → Option Text → Option Text
new_notes none old = old
new_notes (some notes) old = some notes

unfoldable pub start_trip : ℕ → ℕ → Option Text → TokenUser → Store → Result (Store × Trip)
start_trip now k driver_notes actor s = do
  t ← or_raise (get_trip k s) not_found
  raise_if (foreign_driver t actor) forbidden
  raise_if (not (is_planned t.status)) validation
  let t' : Trip = record t {
    status = in_transit;
    departed_at = some now;
    driver_notes = new_notes driver_notes t.driver_notes;
  }
  ok (record_departure_on_start now k t' actor (set_trip k t' s), t')

-- More than 5 % above the plan: `actual > planned * 1.05`.
abbrev pub exceeds_plan : Trip → ℕ → Bool
exceeds_plan t volume_actual =
    not (t.volume_planned == 0) && ltb (t.volume_planned * 105) (volume_actual * 100)

-- `accepted` is the answer of order_service; a refusal rolls everything back.
unfoldable pub complete_trip :
    ℕ → ℕ → ℕ → Option Text → Bool → TokenUser → Store → Result (Store × Trip)
complete_trip now k volume_actual driver_notes accepted actor s = do
  t ← or_raise (get_trip k s) not_found
  raise_if (foreign_driver t actor) forbidden
  raise_if (not (is_in_transit t.status)) validation
  raise_if (exceeds_plan t volume_actual) validation
  let t' : Trip = record t {
    status = completed;
    arrived_at = some now;
    volume_actual = some volume_actual;
    driver_notes = new_notes driver_notes t.driver_notes;
  }
  raise_if (not accepted) validation
  ok (record_departure_adjustment now k t' actor (set_trip k t' s), t')

unfoldable pub cancel_trip : ℕ → ℕ → TokenUser → Store → Result (Store × Trip)
cancel_trip now k actor s = do
  t ← or_raise (get_trip k s) not_found
  raise_if (foreign_driver t actor || not (is_worker actor.role)) forbidden
  raise_if (is_completed t.status) validation
  let t' : Trip = record t { status = cancelled }
  let s' = set_trip k t' s
  ok (
    if is_in_transit t.status then record_reversal_for_cancelled_trip now k t' actor s' else s',
    t',
  )
