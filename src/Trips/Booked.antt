-- ===== src/Trips/Booked.antt =====
-- What the journal has booked for each trip, against the trip's status.
use balt_oil.Trips.Inventory.{
  of_trip, signed_volume, record_departure_on_start, trip_row, upsert_stock,
}
use balt_oil.Trips.Defs.{
  FuelTransaction, Store, TransactionNote, Trip, cancelled, completed, in_transit,
  is_trip_adjustment, is_trip_cancelled, planned, TripStatus, departure, is_departure,
  is_trip_planned, trip_planned,
}
use balt_oil.Service.{TokenUser}
use balt_oil.Table.{lookup, lookup-put, put}
use balt_oil.Prelude.Int.{int_laws, pos, ℤ, ◌+ℤ◌, ◌-ℤ◌}
use balt_oil.Prelude.{
  Bool, Bool-cases, List, Option, [], any, ap, arith, false, if◌then◌else◌, inl, inr, none, refl,
  some, ℕ, ◌&&◌, ◌++◌, ◌==◌, ◌||◌, ◌∷◌, ◌≡◌, ◌⊎◌, ==-refl, Option-cases, or_default,
}

-- The signed sum of the rows of a trip.
abbrev pub trip_total : ℕ → List FuelTransaction → ℤ
trip_total k [] = pos 0
trip_total k (tx ∷ txs) = (if of_trip k tx then signed_volume tx else pos 0) +ℤ trip_total k txs

abbrev pub rows_with : (Option TransactionNote → Bool) → ℕ → List FuelTransaction → Bool
rows_with p k txs = any (λ (tx : FuelTransaction). of_trip k tx && p tx.notes) txs

-- What the rows of a trip sum up to, and whether it has any, an adjustment and a reversal: a planned
-- trip has no rows, one on its way has taken its plan, a completed one the fuel that it delivered,
-- and a cancelled one nothing. A trip without a fuel has taken nothing at any time.
abbrev pub BookedAs : Option ℕ → TripStatus → ℕ → Option ℕ → ℤ → Bool → Bool → Bool → Type 0
BookedAs none status plan fact total some_row adjusted reversed = total ≡ pos 0
BookedAs (some fuel) planned plan fact total some_row adjusted reversed =
    (total ≡ pos 0) × (some_row ≡ false)
BookedAs (some fuel) in_transit plan fact total some_row adjusted reversed =
    (total ≡ pos 0 -ℤ pos plan) × (adjusted ≡ false) × (reversed ≡ false)
BookedAs (some fuel) completed plan fact total some_row adjusted reversed =
    (volume : ℕ) × (fact ≡ some volume) × (total ≡ pos 0 -ℤ pos volume)
BookedAs (some fuel) cancelled plan fact total some_row adjusted reversed = total ≡ pos 0

abbrev pub TripBooked : ℕ → Trip → List FuelTransaction → Type 0
TripBooked k t txs =
    BookedAs t.inv_fuel_type t.status t.volume_planned t.volume_actual (trip_total k txs)
      (any (of_trip k) txs) (rows_with is_trip_adjustment k txs) (rows_with is_trip_cancelled k txs)

abbrev pub Booked : Store → Type 0
Booked s = (k : ℕ) (t : Trip) → lookup k s.trips ≡ some t → TripBooked k t s.transactions

any-snoc :
    (p : FuelTransaction → Bool) (tx : FuelTransaction) (txs : List FuelTransaction)
    → any p (txs ++ (tx ∷ [])) ≡ (any p txs || p tx)
any-snoc p tx [] = ground arith
any-snoc p tx (x ∷ xs) = ground (arith, any-snoc p tx xs)

any_narrow :
    (p q : FuelTransaction → Bool) (txs : List FuelTransaction)
    → any p txs ≡ false
    → any (λ (tx : FuelTransaction). p tx && q tx) txs ≡ false
any_narrow p q [] h = refl
any_narrow p q (x ∷ xs) h = ground (arith, any_narrow p q xs)

pub trip_total-snoc :
    (k : ℕ) (tx : FuelTransaction) (txs : List FuelTransaction)
    → trip_total k (txs ++ (tx ∷ []))
      ≡ trip_total k txs +ℤ (if of_trip k tx then signed_volume tx else pos 0)
trip_total-snoc k tx [] = omega int_laws
trip_total-snoc k tx (x ∷ xs) = rw (trip_total-snoc k tx xs) (omega int_laws)

pub trip_total-none :
    (k : ℕ) (txs : List FuelTransaction) → any (of_trip k) txs ≡ false → trip_total k txs ≡ pos 0
trip_total-none k [] h = refl
trip_total-none k (x ∷ xs) h = grind (int_laws, trip_total-none k xs)

rows_with-snoc :
    (p : Option TransactionNote → Bool) (k : ℕ) (tx : FuelTransaction) (txs : List FuelTransaction)
    → rows_with p k (txs ++ (tx ∷ [])) ≡ (rows_with p k txs || of_trip k tx && p tx.notes)
rows_with-snoc p k tx txs = any-snoc (λ (x : FuelTransaction). of_trip k x && p x.notes) tx txs

-- A row of something else changes nothing for a trip.
pub TripBooked-other :
    (k : ℕ) (t : Trip) (tx : FuelTransaction) (txs : List FuelTransaction)
    → of_trip k tx ≡ false
    → TripBooked k t txs
    → TripBooked k t (txs ++ (tx ∷ []))
TripBooked-other k t tx txs foreign fine =
    let total : trip_total k (txs ++ (tx ∷ [])) ≡ trip_total k txs =
      rw (trip_total-snoc k tx txs, foreign) (omega int_laws) in
    let rows : any (of_trip k) (txs ++ (tx ∷ [])) ≡ any (of_trip k) txs =
      ground (arith, any-snoc (of_trip k) tx txs) in
    let adjusted : rows_with is_trip_adjustment k (txs ++ (tx ∷ []))
        ≡ rows_with is_trip_adjustment k txs =
      ground (arith, rows_with-snoc is_trip_adjustment k tx txs) in
    let reversed : rows_with is_trip_cancelled k (txs ++ (tx ∷ []))
        ≡ rows_with is_trip_cancelled k txs =
      ground (arith, rows_with-snoc is_trip_cancelled k tx txs) in
    rw (total, rows, adjusted, reversed) fine

-- One row of the trip `k`, or none; the other trips do not notice.
abbrev pub TripRow : ℕ → List FuelTransaction → List FuelTransaction → Type 0
TripRow k txs txs' =
    (txs' ≡ txs) ⊎ ((tx : FuelTransaction) × (txs' ≡ txs ++ (tx ∷ [])) × (tx.trip_id ≡ some k))

pub put-Booked :
    (k : ℕ) (t : Trip) (s s' : Store)
    → s'.trips ≡ put k t s.trips
    → TripRow k s.transactions s'.transactions
    → TripBooked k t s'.transactions
    → Booked s
    → Booked s'
put-Booked k t s s' stored row new fine j a h = elim (Bool-cases (k == j)) [
  | inl same ↦
      let this : a ≡ t = ground (arith, lookup-put k j t s.trips, ap (lookup j) stored) in
      let id : k ≡ j = ground arith in rw (this, ← id) new
  | inr differ ↦
      let old = fine j a (ground (arith, lookup-put k j t s.trips, ap (lookup j) stored)) in
      elim row [
        | inl nothing ↦ rw nothing old
        | inr (tx, logged, names) ↦
            rw logged (TripBooked-other j a tx s.transactions (rw names (ground arith)) old)
      ]
]

-- The rows of a trip before its start.
abbrev pub Unbooked : ℕ → Trip → List FuelTransaction → Type 0
Unbooked k t txs =
    BookedAs t.inv_fuel_type planned t.volume_planned none (trip_total k txs) (any (of_trip k) txs)
      false false

pub fresh-Unbooked :
    (k : ℕ) (t : Trip) (txs : List FuelTransaction) → any (of_trip k) txs ≡ false → Unbooked k t txs
fresh-Unbooked k t txs empty = elim (Option-cases t.inv_fuel_type) [
  | inl missing ↦ rw missing (trip_total-none k txs empty)
  | inr (fuel, named) ↦ rw named (trip_total-none k txs empty, empty)
]

-- A trip that sets out posts its plan, if it has a fuel.
pub start-Booked :
    (now k : ℕ) (t : Trip) (actor : TokenUser) (s : Store)
    → t.status ≡ in_transit
    → Unbooked k t s.transactions
    → (TripRow k s.transactions (record_departure_on_start now k t actor s).transactions)
      × (TripBooked k t (record_departure_on_start now k t actor s).transactions)
unfolding record_departure_on_start upsert_stock
start-Booked now k t actor s moving early = elim (Option-cases t.inv_fuel_type) [
  | inl missing ↦
      let same : (record_departure_on_start now k t actor s).transactions ≡ s.transactions =
        ground arith in
      (inl same, rw (same, missing) (rw missing at early))
  | inr (fuel, named) ↦
      let (nothing, empty) = rw named at early in
      let tx =
        trip_row departure fuel t.volume_planned (or_default t.departed_at now) trip_planned k t
          actor in
      let free =
        any_narrow (of_trip k)
          (λ (x : FuelTransaction). is_departure x.kind && is_trip_planned x.notes) s.transactions
          empty in
      let logged : (record_departure_on_start now k t actor s).transactions
          ≡ s.transactions ++ (tx ∷ []) =
        ground arith in
      let unadjusted =
        any_narrow (of_trip k) (λ (x : FuelTransaction). is_trip_adjustment x.notes) s.transactions
          empty in
      let unreversed =
        any_narrow (of_trip k) (λ (x : FuelTransaction). is_trip_cancelled x.notes) s.transactions
          empty in
      (
        inr (tx, logged, refl),
        rw (logged, named, moving)
            (
              rw (trip_total-snoc k tx s.transactions, nothing, ==-refl k) (grind int_laws),
              rw (rows_with-snoc is_trip_adjustment k tx s.transactions, unadjusted) (ground arith),
              rw (rows_with-snoc is_trip_cancelled k tx s.transactions, unreversed) (ground arith),
            ),
      )
]
