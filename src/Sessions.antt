-- ===== src/Sessions.antt =====
-- Logins that last: the refresh-token rotation of auth_service/app/services/auth_service.py and the
-- revocation of access tokens in app/core/token_revocation.py.
pub mod Defs
pub mod Ops
pub mod Rotation
pub mod Replay
pub mod Revocation
mod Examples
