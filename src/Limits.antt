-- ===== src/Limits.antt =====
-- Rate limits of auth_service that live in Redis: one-time codes (app/services/otp_service.py) and
-- the login throttle (app/services/login_throttle.py).
pub mod Otp
pub mod Codes
pub mod Throttle
pub mod HourCap
mod Examples
