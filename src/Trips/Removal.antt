-- ===== src/Trips/Removal.antt =====
-- `handle_order_deleted` of app/services/redis_subscriber.py, on the event `order_deleted` of
-- order_service: the trips and the rows of the order go, and the fuel comes back.
use mathlib.Core.Path.{subst}
use balt_oil.Table.{drop_rows, lookup-put}
use balt_oil.Prelude.Int.{int_laws, pos, ℤ, ◌+ℤ◌, ◌-ℤ◌}
use balt_oil.Prelude.{
  Bool, List, [], keep, not, same_id, ℕ, ◌==◌, ◌∷◌, ◌≡◌, Bool-cases, inl, inr, sym, ◌∙◌, refl,
  arith,
}
use balt_oil.Trips.History.{StoreStep, StoreStep-Posts}
use balt_oil.Trips.Stock.{Posts-Stocked, Stocked}
use balt_oil.Trips.Inventory.{balance_of, signed_volume, stock_of, upsert_stock}
use balt_oil.Trips.Defs.{FuelTransaction, Store, Trip}
use balt_oil.Tanks.Removal.{undo_order, cancel}

abbrev pub undo_stock : List FuelTransaction → Store → Store
unfolding upsert_stock
undo_stock [] s = s
undo_stock (tx ∷ txs) s = undo_stock txs (upsert_stock tx.fuel_type (pos 0 -ℤ signed_volume tx) s)

-- The hundredths of a litre that the stock gets back.
abbrev pub restored : List FuelTransaction → ℤ
restored [] = pos 0
restored (tx ∷ txs) = (pos 0 -ℤ signed_volume tx) +ℤ restored txs

abbrev pub of_order : ℕ → FuelTransaction → Bool
of_order k tx = same_id tx.order_id k

unfoldable pub handle_order_deleted : ℕ → Store → Store × ℤ
unfolding undo_order
handle_order_deleted k s =
    let rows = keep (of_order k) s.transactions in
    let returned = undo_stock rows s in
    (
      record returned {
        transactions = keep (λ (tx : FuelTransaction). not (of_order k tx)) s.transactions;
        depot = undo_order k s.depot;
        trips = drop_rows (λ (t : Trip). t.order_id == k) s.trips;
      },
      restored rows,
    )

undo_stock-stock :
    (fuel : ℕ) (txs : List FuelTransaction) (s : Store)
    → stock_of fuel (undo_stock txs s).stock +ℤ balance_of fuel txs ≡ stock_of fuel s.stock
unfolding upsert_stock
undo_stock-stock fuel [] s = grind int_laws
undo_stock-stock fuel (tx ∷ txs) s =
    let back = pos 0 -ℤ signed_volume tx in
    let next = upsert_stock tx.fuel_type back s in
    let later = undo_stock-stock fuel txs next in
    let now_ = lookup-put tx.fuel_type fuel (stock_of tx.fuel_type s.stock +ℤ back) s.stock in
    elim (Bool-cases (tx.fuel_type == fuel)) [
      | inl this ↦
          let id : tx.fuel_type ≡ fuel = ground arith in
          let after : stock_of fuel next.stock ≡ stock_of tx.fuel_type s.stock +ℤ back =
            rw (now_, this) refl in
          let after' : stock_of fuel next.stock ≡ stock_of fuel s.stock +ℤ back =
            subst (λ d. stock_of fuel next.stock ≡ stock_of d s.stock +ℤ back) id after in
          rw this (grind (int_laws, later, after'))
      | inr other ↦
          let after : stock_of fuel next.stock ≡ stock_of fuel s.stock = rw (now_, other) refl in
          rw other (grind (int_laws, later, after))
    ]

balance_of-split :
    (fuel : ℕ) (p : FuelTransaction → Bool) (txs : List FuelTransaction)
    → balance_of fuel (keep (λ (tx : FuelTransaction). not (p tx)) txs)
        +ℤ balance_of fuel (keep p txs)
      ≡ balance_of fuel txs
balance_of-split fuel p [] = omega int_laws
balance_of-split fuel p (tx ∷ txs) = grind (int_laws, balance_of-split fuel p txs)

handle_order_deleted-Stocked :
    (k : ℕ) (s : Store) → Stocked s → Stocked (handle_order_deleted k s).0
unfolding handle_order_deleted
handle_order_deleted-Stocked k s fine fuel =
    let rows = keep (of_order k) s.transactions in
    cancel (stock_of fuel (undo_stock rows s).stock) (balance_of fuel rows) _
      (stock_of fuel s.stock) (undo_stock-stock fuel rows s)
      (balance_of-split fuel (of_order k) s.transactions ∙ sym (fine fuel))

-- A request, or the event that an order is deleted.
pub data DeliveryStep (s s' : Store) : Type 0 where
  requested : StoreStep s s' → DeliveryStep s s'
  order_deleted : (k : ℕ) → s' ≡ (handle_order_deleted k s).0 → DeliveryStep s s'

pub data DeliveryReach (s : Store) : Store → Type 0 where
  start : DeliveryReach s s
  then_ : {t u : Store} → DeliveryReach s t → DeliveryStep t u → DeliveryReach s u

-- After any sequence of arrivals, corrections, expenses, trips and deletions of orders the stock of
-- every fuel is the signed sum of its transactions, if it was before.
pub DeliveryReach-Stocked : {s s' : Store} → Stocked s → DeliveryReach s s' → Stocked s'
DeliveryReach-Stocked fine start = fine
DeliveryReach-Stocked {s = s} fine (then_ {t} {u} r (requested step)) =
    Posts-Stocked t u (StoreStep-Posts t u step) (DeliveryReach-Stocked {s = s} {s' = t} fine r)
DeliveryReach-Stocked {s = s} fine (then_ {t} {u} r (order_deleted k e)) =
    rw e (handle_order_deleted-Stocked k t (DeliveryReach-Stocked {s = s} {s' = t} fine r))
