-- ===== src/Prices.antt =====
-- The prices and the totals of an order: money.py, tariff_formula.py, pricing_service.py,
-- tariff_service.py and payment_type_rules.py of order_service/app/services.
pub mod Rounding
pub mod Money
pub mod Breakdown
pub mod Formula
pub mod Tariffs
pub mod Defaults
pub mod Tiers
pub mod Quotes
pub mod Manual
mod Examples
