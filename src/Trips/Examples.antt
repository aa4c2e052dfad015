-- ===== src/Trips/Examples.antt =====
-- Tests of the trips, and their theorems at concrete inputs.
use balt_oil.Tanks.Removal.{undo_order}
use balt_oil.Trips.Removal.{
  DeliveryReach-Stocked, handle_order_deleted, order_deleted, requested, start, then_,
}
use balt_oil.Prelude.Int.{pos, ◌+ℤ◌, ◌-ℤ◌, ℤ}
use balt_oil.Prelude.{[], arith, none, refl, some, true, ◌∷◌, ◌≡◌, ap, sym}
use balt_oil.Trips.Ledger.{StoreReach-Booked}
use balt_oil.Trips.Booked.{Booked}
use balt_oil.Trips.History.{StoreReach, auto_started, finished, here, next}
use balt_oil.Trips.Stock.{Stocked}
use balt_oil.Trips.Ops.{auto_create_and_start, auto_trip, complete_trip}
use balt_oil.Trips.Inventory.{
  reconcile_stock, record_departure_adjustment, record_departure_on_start, trip_row, upsert_stock,
}
use balt_oil.Trips.Defs.{
  Store, Trip, TripAutoStartRequest, arrival, completed, departure, trip_adjustment, trip_planned,
}
use balt_oil.Service.{TokenUser, admin, driver, err, ok, validation}

abbrev boss : TokenUser
boss = record { id = 1; role = admin }

abbrev petr : TokenUser
petr = record { id = 3; role = driver }

abbrev empty_store : Store
empty_store = record {
  trips = [];
  vehicles = [];
  transactions = [];
  stock = [];
  depot = record { tanks = []; journal = [] };
}

abbrev request : TripAutoStartRequest
request = record { order_id = 20; driver_id = 3; volume_planned = 100_000; inv_fuel_type = some 1 }

abbrev moving_trip : Trip
moving_trip = auto_trip 50 request

abbrev moving_store : Store
moving_store = record empty_store {
  trips = (40, moving_trip) ∷ [];
  transactions = trip_row departure 1 100_000 50 trip_planned 40 moving_trip boss ∷ [];
  stock = (1, pos 0 -ℤ pos 100_000) ∷ [];
}

starts : auto_create_and_start 50 40 request boss empty_store ≡ ok (moving_store, (40, moving_trip))
unfolding auto_create_and_start record_departure_on_start upsert_stock ◌+ℤ◌ ◌-ℤ◌
starts = refl

abbrev done_trip : Trip
done_trip = record moving_trip {
  status = completed;
  arrived_at = some 90;
  volume_actual = some 99_000;
}

abbrev done_store : Store
done_store = record moving_store {
  trips = (40, done_trip) ∷ [];
  transactions =
      trip_row departure 1 100_000 50 trip_planned 40 moving_trip boss
      ∷ trip_row arrival 1 1_000 90 trip_adjustment 40 done_trip petr
      ∷ [];
  stock = (1, pos 0 -ℤ pos 99_000) ∷ [];
}

completes : complete_trip 90 40 99_000 none true petr moving_store ≡ ok (done_store, done_trip)
unfolding complete_trip record_departure_adjustment upsert_stock ◌+ℤ◌ ◌-ℤ◌
completes = refl

-- More than 5 % above the plan is refused.
complete_refuses : complete_trip 90 40 105_001 none true petr moving_store ≡ err validation
unfolding complete_trip
complete_refuses = refl

history : StoreReach empty_store done_store
history =
    next (next here (auto_started 50 40 request boss (40, moving_trip) (refl, refl) starts))
      (finished 90 40 99_000 none true petr done_trip (omega arith) completes)

abbrev emptied : Store
emptied = record empty_store { stock = (1, pos 0) ∷ [] }

removed : handle_order_deleted 20 done_store ≡ (emptied, pos 99_000)
unfolding handle_order_deleted undo_order upsert_stock ◌+ℤ◌ ◌-ℤ◌
removed = refl

DeliveryReach-Stocked_example : Stocked emptied
DeliveryReach-Stocked_example =
    DeliveryReach-Stocked {s = empty_store} {s' = emptied} (λ fuel. refl)
      (then_
        (then_
          (then_ start
            (requested (auto_started 50 40 request boss (40, moving_trip) (refl, refl) starts)))
          (requested (finished 90 40 99_000 none true petr done_trip (omega arith) completes)))
        (order_deleted 20 (sym (ap (λ (done : Store × ℤ). done.0) removed))))

StoreReach-Booked_example : Booked done_store
StoreReach-Booked_example =
    StoreReach-Booked {s = empty_store} {s' = done_store} (λ k t h. cc) history

abbrev drifted_store : Store
drifted_store = record done_store { stock = [] }

abbrev recounted_store : Store
recounted_store = record done_store { stock = (1, pos 0 -ℤ pos 99_000) ∷ (2, pos 0) ∷ [] }

recounts : reconcile_stock (1 ∷ 2 ∷ []) boss drifted_store ≡ ok recounted_store
unfolding reconcile_stock ◌+ℤ◌ ◌-ℤ◌
recounts = refl
