-- ===== src/Chat.antt =====
-- The chat: conversation_service.py, message_service.py and redis_subscriber.py of
-- chat_service/app/services, with the handlers of app/routers that add to them.
pub mod Defs
pub mod Access
pub mod Ensure
pub mod Groups
pub mod Receipts
pub mod Messages
pub mod Removal
mod Rows
mod Entries
mod GroupRows
mod Quiet
mod Reach
mod WaysIn
mod Readable
mod Seen
mod Direct
mod Examples
