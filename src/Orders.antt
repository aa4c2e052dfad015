-- ===== src/Orders.antt =====
-- The orders of order_service: their life cycle, their numbers, who sees and who edits them.
pub mod Defs
pub mod Audit
pub mod Access
pub mod Numbers
pub mod Amounts
pub mod Lifecycle
pub mod Create
pub mod Permissions
pub mod Customer
pub mod Edit
pub mod Requests
pub mod Shapes
pub mod Progress
pub mod Kept
pub mod KeptEdit
pub mod Reach
pub mod Deliveries
pub mod Sold
pub mod Closed
pub mod Deleted
pub mod Created
pub mod Stranded
pub mod Status
pub mod Waybills
mod Examples
pub mod Visible
pub mod Claims
