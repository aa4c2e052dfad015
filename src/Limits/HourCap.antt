-- ===== src/Limits/HourCap.antt =====
-- The hourly cap of the one-time codes: the counter lives as long as codes are sent within the hour.
use balt_oil.Redis.{Cell, get, second, expire-incr}
use balt_oil.Prelude.{
  All, Bool-cases, List, Option, [], arith, if◌then◌else◌, inl, inr, is_some, none, or_default,
  refl, some, true, ℕ, ◌*◌, ◌+◌, ◌<◌, ◌||◌, ◌∷◌, ◌≡◌, ◌≤◌, ◌⊎◌,
}
use balt_oil.Limits.Otp.{OtpSlot, capped, issue_code, rl_hour_cap, rl_hour_ttl, too_soon}

-- Requests one after another, each with its moment and the number drawn: how many get a code.
abbrev pub issued : List (ℕ × ℕ) → OtpSlot → ℕ
issued [] s = 0
issued ((now, drawn) ∷ rest) s =
    (if is_some (issue_code now drawn s).0 then 1 else 0) + issued rest (issue_code now drawn s).1

-- What one request does to the counter: nothing, or it sends and counts, below the cap.
abbrev Outcome : ℕ → ℕ → OtpSlot → Option ℕ → Type 0
Outcome now drawn s n =
    let (sent, s') = issue_code now drawn s in
    ((sent ≡ none) × (s' ≡ s))
    ⊎ ((is_some sent ≡ true)
        × (s'.rl_hour ≡ some (or_default n 0 + 1, some (now + rl_hour_ttl * second)))
        × (or_default n 0 < rl_hour_cap))

issue_code-Outcome : (now drawn : ℕ) (s : OtpSlot) → Outcome now drawn s (get now s.rl_hour)
unfolding issue_code
issue_code-Outcome now drawn s = elim (Bool-cases (too_soon now s || capped now s)) [
  | inl refused ↦ inl (ground arith)
  | inr free ↦ inr (rw free refl, rw free (expire-incr now rl_hour_ttl s.rl_hour), ground arith)
]

get-later : (now later : ℕ) (c : Cell) → now ≤ later → get now c ≡ none → get later c ≡ none
get-later now later none h e = refl
get-later now later (some (v, none)) h e = cc
get-later now later (some (v, some end)) h e = ground arith

-- With v sends counted until the end of the window, at most 5 - v more go out.
issued-held :
    (end v : ℕ) (requests : List (ℕ × ℕ)) (s : OtpSlot) (until : ℕ)
    → s.rl_hour ≡ some (v, some until)
    → end ≤ until
    → v ≤ rl_hour_cap
    → All (λ (r : ℕ × ℕ). (end ≤ r.0 + rl_hour_ttl * second) × (r.0 < end)) requests
    → issued requests s + v ≤ rl_hour_cap
issued-held end v [] s until held long small w = omega arith
issued-held end v ((now, drawn) ∷ rest) s until held long small w =
    let live : get now s.rl_hour ≡ some v = rw held (ground arith) in
    elim (issue_code-Outcome now drawn s) [
      | inl (refused, same) ↦
          rw (refused, same) (omega (arith, issued-held end v rest s until held long small w.1))
      | inr (passed, hour, room) ↦
          let s' = (issue_code now drawn s).1 in
          let count : s'.rl_hour ≡ some (v + 1, some (now + rl_hour_ttl * second)) =
            rw live at hour in
          let below : v < rl_hour_cap = rw live at room in
          rw passed (
            omega (
              arith,
              issued-held end (v + 1) rest s' (now + rl_hour_ttl * second) count w.0.0 (omega arith)
                  w.1,
            ))
    ]

-- Requests of the window, as `issued-held` wants them.
All-shift :
    (start : ℕ) (requests : List (ℕ × ℕ))
    → All (λ (r : ℕ × ℕ). (start ≤ r.0) × (r.0 < start + rl_hour_ttl * second)) requests
    → All
        (λ (r : ℕ × ℕ).
          (start + rl_hour_ttl * second ≤ r.0 + rl_hour_ttl * second)
          × (r.0 < start + rl_hour_ttl * second))
        requests
All-shift start [] w = tt
All-shift start (r ∷ rest) w = ((omega arith, w.0.1), All-shift start rest w.1)

-- However often a code is asked for within an hour that starts with no counter, at most five are
-- sent.
pub issued-le :
    (start : ℕ) (requests : List (ℕ × ℕ)) (s : OtpSlot)
    → get start s.rl_hour ≡ none
    → All (λ (r : ℕ × ℕ). (start ≤ r.0) × (r.0 < start + rl_hour_ttl * second)) requests
    → issued requests s ≤ rl_hour_cap
issued-le start [] s clean window = omega arith
issued-le start ((now, drawn) ∷ rest) s clean window =
    let fresh = get-later start now s.rl_hour window.0.0 clean in
    elim (issue_code-Outcome now drawn s) [
      | inl (refused, same) ↦
          rw (refused, same) (omega (arith, issued-le start rest s clean window.1))
      | inr (passed, hour, room) ↦
          let s' = (issue_code now drawn s).1 in
          let count : s'.rl_hour ≡ some (1, some (now + rl_hour_ttl * second)) = rw fresh at hour in
          rw passed (
            omega (
              arith,
              issued-held (start + rl_hour_ttl * second) 1 rest s' (now + rl_hour_ttl * second)
                  count (omega arith) (omega arith) (All-shift start rest window.1),
            ))
    ]
