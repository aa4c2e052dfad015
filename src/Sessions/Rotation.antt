-- ===== src/Sessions/Rotation.antt =====
-- What `refresh_tokens` does with the tokens of the table: rotation of a live token, a replay within
-- the grace window, a lost answer, and theft.
use balt_oil.Prelude.{
  Bool, arith, false, if◌then◌else◌, none, not, some, true, ℕ, ◌&&◌, ◌<◌, ◌==◌, ◌≡◌,
}
use balt_oil.Table.{Unique, count_rows, find_row, lookup, lookup-put, put}
use balt_oil.Service.{ok}
use balt_oil.Sessions.Defs.{AuthDb, RefreshToken, Settings, User, World}
use balt_oil.Sessions.Ops.{
  create_access_token, fresh_token, issue_refresh_pair, load_usable_user, refresh_tokens, revoke,
  rotate,
}

abbrev pub is_live : ℕ → RefreshToken → Bool
is_live user_id t = t.user_id == user_id && not t.is_revoked

-- The live tokens of a user.
abbrev pub live_count : ℕ → World → ℕ
live_count user_id w = count_rows (is_live user_id) w.db.tokens

abbrev pub is_usable : User → Bool
is_usable u = not u.is_archived && u.is_active

pub usable-ok :
    (user_id : ℕ) (db : AuthDb) (u : User)
    → lookup user_id db.users ≡ some u
    → is_usable u ≡ true
    → load_usable_user user_id db ≡ ok u
unfolding load_usable_user
usable-ok user_id db u found good = rw found (ground arith)

module _ (hash_token : ℕ → ℕ) (cfg : Settings) (redis_up : Bool) (now id raw presented : ℕ)
    (w : World) where
  -- The row that the presented token names.
  abbrev pub Names : ℕ → RefreshToken → Type 0
  Names k seen =
      find_row (λ k' (t : RefreshToken). t.token_hash == hash_token presented) w.db.tokens
      ≡ some (k, seen)

  -- A live token of a usable user is replaced: the answer is the new pair, the new row is live, the
  -- presented row is revoked with the new one as its successor, and every other row is untouched.
  pub refresh_tokens_rotates :
      (k : ℕ) (seen : RefreshToken) (u : User) (j : ℕ)
      → Unique w.db.tokens
      → lookup id w.db.tokens ≡ none
      → Names k seen
      → seen.is_revoked ≡ false
      → now < seen.expires_at
      → lookup seen.user_id w.db.users ≡ some u
      → is_usable u ≡ true
      → let (r, w') = refresh_tokens hash_token cfg redis_up now id raw presented w in
        (r
          ≡ ok (record {
            access_token = create_access_token cfg now seen.user_id u.role;
            refresh_token = raw;
          }))
        × (lookup j w'.db.tokens ≡ (
            if k == j
            then some (revoke now (some id) seen)
            else if id == j
            then some (fresh_token hash_token cfg now raw seen.user_id)
            else lookup j w.db.tokens))
  unfolding refresh_tokens rotate issue_refresh_pair
  refresh_tokens_rotates k seen u j unique fresh named live early found usable =
      let new = fresh_token hash_token cfg now raw seen.user_id in
      ground (
        arith,
        usable-ok seen.user_id w.db u found usable,
        lookup-put k j (revoke now (some id) seen) (put id new w.db.tokens),
        lookup-put id j new w.db.tokens,
      )
