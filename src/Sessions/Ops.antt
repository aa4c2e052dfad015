-- ===== src/Sessions/Ops.antt =====
-- `refresh_tokens`, `logout` and `logout_all` of auth_service.py, with their helpers. An operation
-- takes the clock, the answer of the random generators (the identifier of the new row and the raw
-- token) and whether Redis answers; `hash_token` (SHA-256) is a parameter.
use balt_oil.Prelude.{
  Bool, Option, [], false, if◌then◌else◌, is_some, leb, ltb, max, none, not, or_default, some, true,
  ℕ, ◌&&◌, ◌*◌, ◌++◌, ◌+◌, ◌-◌, ◌/◌, ◌==◌, ◌||◌, ◌∷◌,
}
use balt_oil.Table.{Table, find_row, lookup, map_rows, put}
use balt_oil.Redis.{Cell, get, second, set_ex}
use balt_oil.Service.{Result, Role, auth_error, err, is_worker, ok, or_raise, raise_if, ◌>>=◌, ◌>>◌}
use balt_oil.Sessions.Defs.{
  AccessToken, AuditAction, AuthDb, RefreshToken, Settings, TokenResponse, User, World, logged_out,
  reuse_detected, token_refresh, token_refresh_in_grace, token_refresh_lost,
}

-- `create_access_token` (app/core/security.py), without the signature: staff get the long session.
unfoldable pub create_access_token : Settings → ℕ → ℕ → Role → AccessToken
create_access_token cfg now user_id role =
    let minutes =
      if is_worker role
      then cfg.staff_access_token_expire_minutes
      else cfg.access_token_expire_minutes in
    record { sub = user_id; role = role; iat = now / second; exp = now / second + minutes * 60 }

-- `is_token_revoked` (app/core/token_revocation.py): open where Redis does not answer, and for a
-- token with no `iat`.
unfoldable pub is_token_revoked : Bool → ℕ → ℕ → Option ℕ → Table Cell → Bool
is_token_revoked redis_up now user_id none marks = false
is_token_revoked redis_up now user_id (some iat) marks =
    not (iat == 0) && redis_up && elim (get now (or_default (lookup user_id marks) none)) [
      | none ↦ false
      | some mark ↦ ltb iat mark
    ]

-- `revoke_user_tokens`, on the marks: one lives longer than the longest access token.
unfoldable pub revoke_user_tokens : Settings → Bool → ℕ → ℕ → Table Cell → Table Cell
revoke_user_tokens cfg redis_up now user_id marks =
    let max_token_minutes =
      max cfg.access_token_expire_minutes cfg.staff_access_token_expire_minutes in
    let mark = set_ex now (now / second) (max_token_minutes * 60 + 60) in
    if redis_up then put user_id mark marks else marks

abbrev pub log_action : ℕ → AuditAction → AuthDb → AuthDb
log_action user_id action db = record db {
  audit = db.audit ++ (record { actor_id = user_id; action = action } ∷ []);
}

-- `_load_usable_user`
unfoldable pub load_usable_user : ℕ → AuthDb → Result User
load_usable_user user_id db = do
  user ← or_raise (lookup user_id db.users) auth_error
  raise_if (user.is_archived || not user.is_active) auth_error
  ok user

abbrev pub revoke : ℕ → Option ℕ → RefreshToken → RefreshToken
revoke now successor t = record t {
  is_revoked = true;
  revoked_at = some now;
  rotated_to_id = successor;
}

-- The loop of `logout_all`: a live token of the user is revoked, its successor field left alone.
abbrev pub close_own : ℕ → ℕ → ℕ → RefreshToken → RefreshToken
close_own now user_id k t =
    if t.user_id == user_id && not t.is_revoked then revoke now t.rotated_to_id t else t

unfoldable pub logout_all : Settings → Bool → ℕ → ℕ → World → World
logout_all cfg redis_up now user_id w = record {
  db = record w.db { tokens = map_rows (close_own now user_id) w.db.tokens };
  revoked_after = revoke_user_tokens cfg redis_up now user_id w.revoked_after;
}

module _ (hash_token : ℕ → ℕ) where
  -- The row of a new token of the user.
  abbrev pub fresh_token : Settings → ℕ → ℕ → ℕ → RefreshToken
  fresh_token cfg now raw user_id = record {
    user_id = user_id;
    token_hash = hash_token raw;
    is_revoked = false;
    revoked_at = none;
    rotated_to_id = none;
    expires_at = now + cfg.refresh_token_expire_days * 86_400 * second;
  }

  -- `_issue_refresh_pair`, for a new row `id` with the raw token `raw`
  unfoldable pub issue_refresh_pair :
      Settings → ℕ → ℕ → ℕ → ℕ → User → AuditAction → AuthDb → AuthDb × TokenResponse
  issue_refresh_pair cfg now id raw user_id user action db =
      let token = fresh_token cfg now raw user_id in
      (
        log_action user_id action (record db { tokens = put id token db.tokens }),
        record {
          access_token = create_access_token cfg now user_id user.role;
          refresh_token = raw;
        },
      )

  -- The unused successor of a replaced token: alive, and presented by nobody.
  abbrev pub unused : ℕ → AuthDb → Option ℕ → Option (ℕ × RefreshToken)
  unused now db none = none
  unused now db (some k) = elim (lookup k db.tokens) [
    | none ↦ none
    | some t ↦ if not t.is_revoked && ltb now t.expires_at then some (k, t) else none
  ]

  abbrev pub is_parallel_refresh : Settings → ℕ → RefreshToken → Bool
  is_parallel_refresh cfg now seen = elim seen.revoked_at [
    | none ↦ false
    | some at ↦
        is_some seen.rotated_to_id && leb (now - at) (cfg.refresh_rotation_grace_seconds * second)
  ]

  -- The successor that is closed because its answer was lost.
  abbrev pub lost_response : Settings → ℕ → AuthDb → RefreshToken → Option (ℕ × RefreshToken)
  lost_response cfg now db seen =
      if not (is_parallel_refresh cfg now seen) && ltb now seen.expires_at
      then unused now db seen.rotated_to_id
      else none

  -- The pair for a usable user on the prepared database; a refusal rolls the preparation back.
  abbrev pub issue_again :
      Settings → ℕ → ℕ → ℕ → ℕ → AuditAction → AuthDb → World → Result TokenResponse × World
  issue_again cfg now id raw user_id action prepared w = elim (load_usable_user user_id prepared) [
    | err e ↦ (err e, w)
    | ok user ↦
        let (db, response) = issue_refresh_pair cfg now id raw user_id user action prepared in
        (ok response, record w { db = db })
  ]

  -- The replay of a stolen token: all sessions end, and that is committed before the error.
  abbrev pub theft : Settings → Bool → ℕ → ℕ → World → Result TokenResponse × World
  theft cfg redis_up now user_id w =
      let closed = logout_all cfg redis_up now user_id w in
      (err auth_error, record closed { db = log_action user_id reuse_detected closed.db })

  -- A token that was revoked before.
  unfoldable pub replay :
      Settings → Bool → ℕ → ℕ → ℕ → RefreshToken → World → Result TokenResponse × World
  replay cfg redis_up now id raw seen w =
      if is_parallel_refresh cfg now seen
      then issue_again cfg now id raw seen.user_id token_refresh_in_grace w.db w
      else elim (lost_response cfg now w.db seen) [
        | some (k, successor) ↦
            let closed = put k (revoke now successor.rotated_to_id successor) w.db.tokens in
            issue_again cfg now id raw seen.user_id token_refresh_lost
              (record w.db { tokens = closed }) w
        | none ↦ theft cfg redis_up now seen.user_id w
      ]

  -- A live token: the new pair, and the old row linked to its successor.
  unfoldable pub rotate :
      Settings → ℕ → ℕ → ℕ → ℕ → RefreshToken → World → Result TokenResponse × World
  rotate cfg now id raw k seen w =
      if leb seen.expires_at now
      then (err auth_error, w)
      else elim (load_usable_user seen.user_id w.db) [
        | err e ↦ (err e, w)
        | ok user ↦
            let (db, response) =
              issue_refresh_pair cfg now id raw seen.user_id user token_refresh w.db in
            (
              ok response,
              record w { db = record db { tokens = put k (revoke now (some id) seen) db.tokens } },
            )
      ]

  unfoldable pub refresh_tokens :
      Settings → Bool → ℕ → ℕ → ℕ → ℕ → World → Result TokenResponse × World
  unfolding replay rotate
  refresh_tokens cfg redis_up now id raw presented w =
      elim (find_row (λ k (t : RefreshToken). t.token_hash == hash_token presented) w.db.tokens) [
        | none ↦ (err auth_error, w)
        | some (k, seen) ↦
            if seen.is_revoked
            then replay cfg redis_up now id raw seen w
            else rotate cfg now id raw k seen w
      ]

  abbrev pub names_own : ℕ → ℕ → ℕ → RefreshToken → Bool
  names_own presented actor_id k t = t.token_hash == hash_token presented && t.user_id == actor_id

  -- `logout`: the presented token of the actor is revoked; its successor field is left alone.
  unfoldable pub logout : Settings → Bool → ℕ → ℕ → ℕ → World → World
  logout cfg redis_up now presented actor_id w =
      let tokens : Table RefreshToken = elim (find_row (names_own presented actor_id) w.db.tokens) [
        | none ↦ w.db.tokens
        | some (k, t) ↦ put k (revoke now t.rotated_to_id t) w.db.tokens
      ] in
      let db = log_action actor_id logged_out (record w.db { tokens = tokens }) in
      record {
        db = db;
        revoked_after = revoke_user_tokens cfg redis_up now actor_id w.revoked_after;
      }
