-- ===== src/Sessions/Revocation.antt =====
-- Access tokens after a logout, and what a logout does not end.
use balt_oil.Sessions.Replay.{refresh_tokens_parallel}
use balt_oil.Prelude.{
  Bool, max, some, true, ℕ, ◌*◌, ◌+◌, ◌-◌, ◌/◌, ◌<◌, ◌==◌, ◌≡◌, ◌≤◌, Bool-cases, arith, inl, inr,
  refl,
}
use balt_oil.Table.{
  Unique, find_row, lookup, find_row-narrow, find_row-passes, lookup-put_self, put, find_row-put,
}
use balt_oil.Redis.{second, set_ex}
use balt_oil.Service.{Role, ok, is_worker}
use balt_oil.Sessions.Defs.{RefreshToken, Settings, User, World}
use balt_oil.Sessions.Ops.{
  create_access_token, is_token_revoked, logout, refresh_tokens, revoke_user_tokens, names_own,
  revoke, is_parallel_refresh,
}
use balt_oil.Sessions.Rotation.{is_usable}

-- No access token outlives the longest session.
exp-le :
    (cfg : Settings) (issued user_id : ℕ) (role : Role)
    → (create_access_token cfg issued user_id role).exp
      ≤ issued / second
        + max cfg.access_token_expire_minutes cfg.staff_access_token_expire_minutes * 60
unfolding create_access_token
exp-le cfg issued user_id role = elim (Bool-cases (is_worker role)) [
  | inl staff ↦ rw staff (omega arith)
  | inr visitor ↦ rw visitor (omega arith)
]

module _ (hash_token : ℕ → ℕ) (cfg : Settings) (now presented user_id : ℕ) (w : World) where
  -- With Redis up, `logout` ends every access token that the user got in an earlier second: until
  -- the token expires by itself, `is_token_revoked` says that it is revoked.
  pub logout_revokes :
      (issued later : ℕ) (role : Role)
      → second ≤ issued
      → issued / second < now / second
      → now ≤ later
      → later / second < (create_access_token cfg issued user_id role).exp
      → is_token_revoked true later user_id
          (some (create_access_token cfg issued user_id role).iat)
          (logout hash_token cfg true now presented user_id w).revoked_after
        ≡ true
  unfolding logout is_token_revoked revoke_user_tokens create_access_token
  logout_revokes issued later role old before after alive =
      let ttl =
        max cfg.access_token_expire_minutes cfg.staff_access_token_expire_minutes * 60 + 60 in
      let mark = set_ex now (now / second) ttl in
      let lasts : later < now + ttl * second = omega (arith, exp-le cfg issued user_id role) in
      rw (lookup-put_self user_id mark w.revoked_after) (ground (arith, lasts))

  logout-db :
      (redis_up : Bool) (k : ℕ) (t : RefreshToken)
      → find_row (names_own hash_token presented user_id) w.db.tokens ≡ some (k, t)
      → let w' = logout hash_token cfg redis_up now presented user_id w in
        (w'.db.tokens ≡ put k (revoke now t.rotated_to_id t) w.db.tokens)
        × (w'.db.users ≡ w.db.users)
  unfolding logout
  logout-db redis_up k t mine = ground arith

  -- A token that was replaced before is not ended by presenting it to `logout`: within the grace
  -- window after the logout `refresh_tokens` takes it for a second tab and issues a new pair.
  pub logout_replaced :
      (redis_up : Bool) (later id raw k s : ℕ) (seen : RefreshToken) (u : User)
      → Unique w.db.tokens
      → find_row (λ k' (t : RefreshToken). t.token_hash == hash_token presented) w.db.tokens
        ≡ some (k, seen)
      → seen.user_id ≡ user_id
      → seen.is_revoked ≡ true
      → seen.rotated_to_id ≡ some s
      → later - now ≤ cfg.refresh_rotation_grace_seconds * second
      → lookup seen.user_id w.db.users ≡ some u
      → is_usable u ≡ true
      → (refresh_tokens hash_token cfg redis_up later id raw presented
          (logout hash_token cfg redis_up now presented user_id w)).0
        ≡ ok (record {
          access_token = create_access_token cfg later seen.user_id u.role;
          refresh_token = raw;
        })
  logout_replaced redis_up later id raw k s seen u unique named own revoked chain soon found
        usable =
      let closed = revoke now seen.rotated_to_id seen in
      let hit = find_row-passes _ k seen w.db.tokens named in
      let mine : find_row (names_own hash_token presented user_id) w.db.tokens ≡ some (k, seen) =
        find_row-narrow _ (names_own hash_token presented user_id) k seen w.db.tokens
          (λ j t. ground arith) named (ground (arith, hit)) in
      let (stored, same) = logout-db redis_up k seen mine in
      let parallel : is_parallel_refresh hash_token cfg later closed ≡ true =
        rw chain (ground arith) in
      (refresh_tokens_parallel hash_token cfg redis_up later id raw presented
        (logout hash_token cfg redis_up now presented user_id w) k closed u id
        (rw stored (find_row-put _ k seen closed w.db.tokens unique named hit)) refl parallel
        (rw same found) usable).0
