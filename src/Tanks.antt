-- ===== src/Tanks.antt =====
-- Fuel tanks with pump counters: delivery_service/app/services/tank_service.py, with the tables of
-- app/models/fuel_tank.py and the requests of app/schemas/tank.py. Volumes are whole hundredths of
-- a litre (the columns are NUMERIC(12, 2)) and may be negative; the counter counts whole litres.
pub mod Defs
pub mod Ops
pub mod Counter
pub mod Journal
pub mod Postings
pub mod Transfers
pub mod Removal
pub mod History
pub mod Access
mod Examples
