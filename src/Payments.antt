-- ===== src/Payments.antt =====
-- Payments of orders (order_service): app/services/payment_service.py over app/models/payment.py,
-- app/models/idempotency_key.py and the fields of app/models/order.py that it reads.
pub mod Defs
pub mod Ops
pub mod Totals
pub mod Cancel
pub mod Settled
pub mod Gate
pub mod Examples
