-- ===== src/Sessions/Defs.antt =====
-- Rows and settings of the sessions: app/models/refresh_token.py, app/models/user.py (the flags that
-- the code reads), app/models/audit_log.py (the action and its details) and app/config.py. The clock
-- counts microseconds, as `datetime` does. Raw tokens and their digests are numbers.
use balt_oil.Prelude.{Bool, List, Option, ℕ}
use balt_oil.Table.{Table}
use balt_oil.Redis.{Cell}
use balt_oil.Service.{Role}

pub record User : Type 0 where
  pub role : Role
  pub is_archived : Bool
  pub is_active : Bool

pub record RefreshToken : Type 0 where
  pub user_id : ℕ
  pub token_hash : ℕ
  pub is_revoked : Bool
  pub revoked_at : Option ℕ
  pub rotated_to_id : Option ℕ
  pub expires_at : ℕ

pub data AuditAction : Type 0 where
  token_refresh token_refresh_in_grace token_refresh_lost reuse_detected logged_out : AuditAction

pub record AuditLog : Type 0 where
  pub actor_id : ℕ
  pub action : AuditAction

pub record AuthDb : Type 0 where
  pub users : Table User
  pub tokens : Table RefreshToken
  pub audit : List AuditLog

-- The database, and the Redis keys `revoked_after:{user_id}`, which no rollback touches.
pub record World : Type 0 where
  pub db : AuthDb
  pub revoked_after : Table Cell

pub record Settings : Type 0 where
  pub access_token_expire_minutes : ℕ
  pub staff_access_token_expire_minutes : ℕ
  pub refresh_token_expire_days : ℕ
  pub refresh_rotation_grace_seconds : ℕ

-- The claims of an access token, in whole seconds.
pub record AccessToken : Type 0 where
  pub sub : ℕ
  pub role : Role
  pub iat : ℕ
  pub exp : ℕ

pub record TokenResponse : Type 0 where
  pub access_token : AccessToken
  pub refresh_token : ℕ
