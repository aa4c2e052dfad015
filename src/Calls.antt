-- ===== src/Calls.antt =====
-- Calls between users (call_service): app/services/call_service.py and app/routers/webhook.py.
pub mod Defs
pub mod Ops
mod Moves
mod OneCall
mod Closing
mod Examples
