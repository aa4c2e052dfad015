-- ===== src/Sessions/Examples.antt =====
-- The session theorems at concrete inputs: one user with four tokens, under a digest that is a sum.

use balt_oil.Sessions.Revocation.{logout_revokes}
use balt_oil.Sessions.Replay.{refresh_tokens_theft}
use balt_oil.Sessions.Rotation.{live_count, refresh_tokens_rotates}
use balt_oil.Sessions.Ops.{create_access_token, is_token_revoked, logout, refresh_tokens, revoke}
use balt_oil.Sessions.Defs.{RefreshToken, Settings, TokenResponse, User, World, reuse_detected}
use balt_oil.Service.{auth_error, client, err, ok}
use balt_oil.Redis.{second}
use balt_oil.Table.{Unique, lookup}
use balt_oil.Prelude.{Bool, Option, [], arith, false, none, refl, some, true, ℕ, ◌*◌, ◌+◌, ◌∷◌, ◌≡◌}

abbrev digest : ℕ → ℕ
digest raw = raw + 1000

abbrev config : Settings
config = record {
  access_token_expire_minutes = 15;
  staff_access_token_expire_minutes = 720;
  refresh_token_expire_days = 30;
  refresh_rotation_grace_seconds = 60;
}

abbrev token : ℕ → Bool → Option ℕ → Option ℕ → RefreshToken
token raw revoked at successor = record {
  user_id = 7;
  token_hash = digest raw;
  is_revoked = revoked;
  revoked_at = at;
  rotated_to_id = successor;
  expires_at = 1000 * second;
}

abbrev olga : User
olga = record { role = client; is_archived = false; is_active = true }

-- Token 1 was replaced by token 2 at second 100; token 3 was closed by a logout at that second.
abbrev world : World
world = record {
  db = record {
    users = (7, olga) ∷ [];
    tokens =
        (1, token 11 true (some (100 * second)) (some 2))
        ∷ (2, token 12 false none none)
        ∷ (3, token 13 true (some (100 * second)) none)
        ∷ [];
    audit = [];
  };
  revoked_after = [];
}

world-Unique : Unique world.db.tokens
world-Unique = (refl, (refl, (refl, tt)))

abbrev pair_at : ℕ → TokenResponse
pair_at now = record { access_token = create_access_token config now 7 client; refresh_token = 14 }

refresh_tokens_rotates_example :
    let (r, w) = refresh_tokens digest config true (300 * second) 4 14 12 world in
    (r ≡ ok (pair_at (300 * second)))
    × (lookup 2 w.db.tokens ≡ some (revoke (300 * second) (some 4) (token 12 false none none)))
refresh_tokens_rotates_example =
    refresh_tokens_rotates digest config true (300 * second) 4 14 12 world 2
      (token 12 false none none) olga 2 world-Unique refl refl refl (omega arith) refl refl

refresh_tokens_theft_example :
    let (r, w) = refresh_tokens digest config true (300 * second) 4 14 13 world in
    (r ≡ err auth_error)
    × (live_count 7 w ≡ 0)
    × (w.db.audit ≡ record { actor_id = 7; action = reuse_detected } ∷ [])
refresh_tokens_theft_example =
    refresh_tokens_theft digest config true (300 * second) 4 14 13 world 3
      (token 13 true (some (100 * second)) none) refl refl refl

logout_revokes_example :
    is_token_revoked true
      (400 * second)
      7
      (some (create_access_token config (250 * second) 7 client).iat)
      (logout digest config true (300 * second) 12 7 world).revoked_after
    ≡ true
unfolding create_access_token
logout_revokes_example =
    logout_revokes digest config (300 * second) 12 7 world (250 * second) (400 * second) client
      (omega arith) (omega arith) (omega arith) (omega arith)
