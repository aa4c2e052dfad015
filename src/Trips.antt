-- ===== src/Trips.antt =====
-- Trips and the fuel stock (delivery_service): app/services/trip_service.py and
-- app/services/inventory_service.py.
pub mod Defs
pub mod Inventory
pub mod Ops
mod Stock
mod History
pub mod Removal
mod Booked
mod Delivered
mod Ledger
mod Reconcile
mod Examples
