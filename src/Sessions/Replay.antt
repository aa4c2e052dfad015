-- ===== src/Sessions/Replay.antt =====
-- A refresh token that was revoked before comes again: a second tab within the grace window, a lost
-- answer, or a thief.
use balt_oil.Prelude.{
  Bool, [], arith, false, if◌then◌else◌, none, some, true, ℕ, ◌++◌, ◌==◌, ◌∷◌, ◌≡◌, Option-cases,
  inl, inr, refl,
}
use balt_oil.Table.{lookup, lookup-put, count_rows-map_rows_zero}
use balt_oil.Service.{Result, auth_error, err, ok}
use balt_oil.Sessions.Defs.{RefreshToken, Settings, TokenResponse, User, World, reuse_detected}
use balt_oil.Sessions.Ops.{
  create_access_token, fresh_token, is_parallel_refresh, issue_refresh_pair, logout_all,
  refresh_tokens, replay, close_own, lost_response, theft,
}
use balt_oil.Sessions.Rotation.{Names, is_usable, live_count, usable-ok, is_live}

-- After `logout_all` the user has no live token.
pub live_count-logout_all :
    (cfg : Settings) (redis_up : Bool) (now user_id : ℕ) (w : World)
    → live_count user_id (logout_all cfg redis_up now user_id w) ≡ 0
unfolding logout_all
live_count-logout_all cfg redis_up now user_id w =
    count_rows-map_rows_zero (is_live user_id) (close_own now user_id) w.db.tokens
      (λ k t. ground arith)

module _ (hash_token : ℕ → ℕ) (cfg : Settings) (redis_up : Bool) (now id raw presented : ℕ)
    (w : World) where
  abbrev after : Result TokenResponse × World
  after = refresh_tokens hash_token cfg redis_up now id raw presented w

  -- A revoked token is judged by `replay`.
  to_replay :
      (k : ℕ) (seen : RefreshToken)
      → Names hash_token cfg redis_up now id raw presented w k seen
      → seen.is_revoked ≡ true
      → after ≡ replay hash_token cfg redis_up now id raw seen w
  unfolding refresh_tokens
  to_replay k seen named revoked = ground arith

  alone-not-parallel :
      (seen : RefreshToken)
      → seen.rotated_to_id ≡ none
      → is_parallel_refresh hash_token cfg now seen ≡ false
  alone-not-parallel seen alone = elim (Option-cases seen.revoked_at) [
    | inl never ↦ rw never refl
    | inr (at, e) ↦ rw (e, alone) refl
  ]

  alone-not-lost :
      (seen : RefreshToken)
      → seen.rotated_to_id ≡ none
      → lost_response hash_token cfg now w.db seen ≡ none
  alone-not-lost seen alone = rw alone (ground arith)

  to_theft :
      (seen : RefreshToken)
      → seen.rotated_to_id ≡ none
      → replay hash_token cfg redis_up now id raw seen w
        ≡ theft hash_token cfg redis_up now seen.user_id w
  unfolding replay
  to_theft seen alone = ground (arith, alone-not-parallel seen alone, alone-not-lost seen alone)

  -- A revoked token without a successor, as `logout` leaves it, is taken for stolen: the caller gets
  -- an error, and the owner is left with no live token and an audit row that says why.
  pub refresh_tokens_theft :
      (k : ℕ) (seen : RefreshToken)
      → Names hash_token cfg redis_up now id raw presented w k seen
      → seen.is_revoked ≡ true
      → seen.rotated_to_id ≡ none
      → (after.0 ≡ err auth_error)
        × (live_count seen.user_id after.1 ≡ 0)
        × (after.1.db.audit
            ≡ w.db.audit ++ (record { actor_id = seen.user_id; action = reuse_detected } ∷ []))
  unfolding logout_all
  refresh_tokens_theft k seen named revoked alone =
      rw (to_replay k seen named revoked, to_theft seen alone)
        (refl, live_count-logout_all cfg redis_up now seen.user_id w, refl)

  -- Within the grace window a replaced token of a usable user gets a new pair, and every row that
  -- stood in the table is untouched.
  pub refresh_tokens_parallel :
      (k : ℕ) (seen : RefreshToken) (u : User) (j : ℕ)
      → Names hash_token cfg redis_up now id raw presented w k seen
      → seen.is_revoked ≡ true
      → is_parallel_refresh hash_token cfg now seen ≡ true
      → lookup seen.user_id w.db.users ≡ some u
      → is_usable u ≡ true
      → (after.0
          ≡ ok (record {
            access_token = create_access_token cfg now seen.user_id u.role;
            refresh_token = raw;
          }))
        × (lookup j after.1.db.tokens ≡ (
            if id == j
            then some (fresh_token hash_token cfg now raw seen.user_id)
            else lookup j w.db.tokens))
  unfolding refresh_tokens replay issue_refresh_pair
  refresh_tokens_parallel k seen u j named revoked parallel found usable =
      let new = fresh_token hash_token cfg now raw seen.user_id in
      ground (arith, usable-ok seen.user_id w.db u found usable, lookup-put id j new w.db.tokens)
