-- ===== src/Trips/Stock.antt =====
-- The stock against the journal of its transactions.
use balt_oil.Trips.Inventory.{
  balance_of, difference_row, expense_note, has_row, record_adjustment, record_arrival,
  record_departure_adjustment, record_departure_on_start, record_expense,
  record_reversal_for_cancelled_trip, signed_volume, stock_of, trip_row, upsert_stock,
}
use balt_oil.Trips.Defs.{
  ArrivalRequest, ExpenseRequest, FuelTransaction, Store, Trip, arrival, departure, is_departure,
  is_trip_adjustment, is_trip_cancelled, is_trip_planned, trip_cancelled, trip_planned,
}
use balt_oil.Tanks.Ops.{differs, record_expense_from_tank}
use balt_oil.Text.{Text}
use balt_oil.Service.{Result-cases, TokenUser, ok}
use balt_oil.Table.{lookup-put, put}
use balt_oil.Prelude.Int.{int_laws, pos, ℤ, ◌+ℤ◌, abs, ltb_ℤ, negsuc, ◌-ℤ◌}
use balt_oil.Prelude.{
  Bool, Bool-cases, List, Option, Option-cases, [], arith, if◌then◌else◌, inl, inr, or_default,
  some, ℕ, ◌&&◌, ◌++◌, ◌==◌, ◌||◌, ◌∷◌, ◌≡◌, ◌⊎◌,
}

-- Every fuel's stock is the signed sum of its rows.
abbrev pub Stocked : Store → Type 0
Stocked s = (fuel : ℕ) → stock_of fuel s.stock ≡ balance_of fuel s.transactions

-- Nothing is posted, or one row with its change of the stock.
abbrev pub Posts : Store → Store → Type 0
Posts s s' =
    ((s'.transactions ≡ s.transactions) × (s'.stock ≡ s.stock))
    ⊎ ((tx : FuelTransaction) × (s'.transactions ≡ s.transactions ++ (tx ∷ []))
        × (s'.stock ≡ put tx.fuel_type (stock_of tx.fuel_type s.stock +ℤ signed_volume tx) s.stock))

balance_of-append :
    (fuel : ℕ) (tx : FuelTransaction) (txs : List FuelTransaction)
    → balance_of fuel (txs ++ (tx ∷ []))
      ≡ balance_of fuel txs +ℤ (if tx.fuel_type == fuel then signed_volume tx else pos 0)
balance_of-append fuel tx [] = omega int_laws
balance_of-append fuel tx (x ∷ xs) = rw (balance_of-append fuel tx xs) (omega int_laws)

pub Posts-Stocked : (s s' : Store) → Posts s s' → Stocked s → Stocked s'
Posts-Stocked s s' (inl (same, same')) fine fuel = rw (same, same') (fine fuel)
Posts-Stocked s s' (inr (tx, logged, stored)) fine fuel =
    let new = stock_of tx.fuel_type s.stock +ℤ signed_volume tx in
    rw (logged, stored, balance_of-append fuel tx s.transactions)
      (grind (int_laws, lookup-put tx.fuel_type fuel new s.stock, fine fuel, fine tx.fuel_type))

pub record_departure_on_start-Posts :
    (now k : ℕ) (t : Trip) (actor : TokenUser) (s : Store)
    → Posts s (record_departure_on_start now k t actor s)
unfolding record_departure_on_start upsert_stock
record_departure_on_start-Posts now k t actor s = elim (Option-cases t.inv_fuel_type) [
  | inl missing ↦ inl (ground arith)
  | inr (fuel, named) ↦
      let tx =
        trip_row departure fuel t.volume_planned (or_default t.departed_at now) trip_planned k t
          actor in
      elim (Bool-cases
        (has_row (λ (x : FuelTransaction). is_departure x.kind && is_trip_planned x.notes) k s)) [
          | inl booked ↦ inl (ground arith)
          | inr free ↦ inr (tx, ground arith, ground arith)
        ]
]

pub record_departure_adjustment-Posts :
    (now k : ℕ) (t : Trip) (actor : TokenUser) (s : Store)
    → Posts s (record_departure_adjustment now k t actor s)
unfolding record_departure_adjustment upsert_stock
record_departure_adjustment-Posts now k t actor s = elim (Option-cases t.inv_fuel_type) [
  | inl missing ↦ inl (ground arith)
  | inr (fuel, named) ↦ elim (Option-cases t.volume_actual) [
    | inl unknown ↦ inl (ground arith)
    | inr (volume, measured) ↦
        elim (Bool-cases (
          volume == 0
          || volume == t.volume_planned
          || has_row (λ (tx : FuelTransaction). is_trip_adjustment tx.notes) k s)) [
            | inl nothing ↦ inl (ground arith)
            | inr differs ↦
                inr (difference_row now fuel volume k t actor, ground arith, ground arith)
          ]
  ]
]

pub record_reversal-Posts :
    (now k : ℕ) (t : Trip) (actor : TokenUser) (s : Store)
    → Posts s (record_reversal_for_cancelled_trip now k t actor s)
unfolding record_reversal_for_cancelled_trip upsert_stock
record_reversal-Posts now k t actor s = elim (Option-cases t.inv_fuel_type) [
  | inl missing ↦ inl (ground arith)
  | inr (fuel, named) ↦
      elim (Bool-cases (has_row (λ (x : FuelTransaction). is_trip_cancelled x.notes) k s)) [
        | inl booked ↦ inl (ground arith)
        | inr free ↦ inr (
          trip_row arrival fuel t.volume_planned now trip_cancelled k t actor,
          ground arith,
          ground arith,
        )
      ]
]

pub record_arrival-Posts :
    (now : ℕ) (known : ℕ → Bool) (data' : ArrivalRequest) (actor : TokenUser) (s s' : Store)
    (tx : FuelTransaction)
    → record_arrival now known data' actor s ≡ ok (s', tx)
    → Posts s s'
unfolding record_arrival upsert_stock
record_arrival-Posts now known data' actor s s' tx e = inr (tx, ground arith, ground arith)

signed_abs :
    (delta : ℤ)
    → (if is_departure (if ltb_ℤ (pos 0) delta then arrival else departure)
        then pos 0 -ℤ pos (abs delta)
        else pos (abs delta))
      ≡ delta
signed_abs (pos n) = grind int_laws
signed_abs (negsuc n) = grind int_laws

pub record_adjustment-Posts :
    (now : ℕ) (known : ℕ → Bool) (fuel : ℕ) (delta : ℤ) (notes : Text) (actor : TokenUser)
    (s s' : Store) (tx : FuelTransaction)
    → record_adjustment now known fuel delta notes actor s ≡ ok (s', tx)
    → Posts s s'
unfolding record_adjustment upsert_stock
record_adjustment-Posts now known fuel delta notes actor s s' tx e =
    let kind : tx.kind ≡ (if ltb_ℤ (pos 0) delta then arrival else departure) = ground arith in
    let size : tx.volume ≡ abs delta = ground arith in
    let volume : signed_volume tx ≡ delta = rw (kind, size) (signed_abs delta) in
    inr (tx, ground arith, rw volume (ground arith))

pub record_expense-Posts :
    (now : ℕ) (known : ℕ → Bool) (data' : ExpenseRequest) (actor : TokenUser) (name : Option Text)
    (s s' : Store) (tx : FuelTransaction)
    → record_expense now known data' actor name s ≡ ok (s', tx)
    → Posts s s'
unfolding record_expense upsert_stock
record_expense-Posts now known data' actor name s s' tx e = elim (Option-cases data'.tank_id) [
  | inl missing ↦ inr (tx, ground arith, ground arith)
  | inr (k, given) ↦
      elim (Result-cases (
        record_expense_from_tank k (pos data'.volume) data'.counter_after actor name
          (some (expense_note data')) s.depot)) [
            | inr (x, failed) ↦ absurd (ground arith)
            | inl (depot, taken) ↦ inr (tx, ground arith, ground arith)
          ]
]
