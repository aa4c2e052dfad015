-- ===== src/Redis.antt =====
-- One Redis key with its expiry, on a clock of microseconds: GET, SET … EX, INCR, EXPIRE and DEL as
-- the services use them. A key whose time has come is gone.
use balt_oil.Prelude.{
  Option, if◌then◌else◌, ltb, none, some, ℕ, ◌*◌, ◌+◌, arith, or_default, refl, ◌<◌, ◌≡◌,
}

-- The value, and the moment at which the key expires (`none`: never).
abbrev pub Cell : Type 0
Cell = Option (ℕ × Option ℕ)

abbrev pub second : ℕ
second = 1_000_000

abbrev pub get_live : ℕ → ℕ → Option ℕ → Option ℕ
get_live now v none = some v
get_live now v (some end) = if ltb now end then some v else none

abbrev pub get : ℕ → Cell → Option ℕ
get now none = none
get now (some (v, end)) = get_live now v end

-- `SET key v EX ttl`
abbrev pub set_ex : ℕ → ℕ → ℕ → Cell
set_ex now v ttl = some (v, some (now + ttl * second))

-- `INCR` keeps the expiry of a live key, and starts a missing one at 1 with none.
abbrev pub incr : ℕ → Cell → ℕ × Cell
incr now none = (1, some (1, none))
incr now (some (v, none)) = (v + 1, some (v + 1, none))
incr now (some (v, some end)) =
    if ltb now end then (v + 1, some (v + 1, some end)) else (1, some (1, none))

-- `EXPIRE` of a key that is live.
abbrev pub expire : ℕ → ℕ → Cell → Cell
expire now ttl none = none
expire now ttl (some (v, end)) = some (v, some (now + ttl * second))

-- INCR counts one more than the live value.
pub incr-counts : (now : ℕ) (c : Cell) → (incr now c).0 ≡ or_default (get now c) 0 + 1
incr-counts now none = refl
incr-counts now (some (v, none)) = refl
incr-counts now (some (v, some end)) = ground arith

pub get-incr : (now : ℕ) (c : Cell) → get now (incr now c).1 ≡ some (incr now c).0
get-incr now none = refl
get-incr now (some (v, none)) = refl
get-incr now (some (v, some end)) = ground arith

pub get-expire :
    (now ttl : ℕ) (c : Cell) (v : ℕ)
    → 0 < ttl
    → get now c ≡ some v
    → get now (expire now ttl c) ≡ some v
get-expire now ttl none v h e = cc
get-expire now ttl (some (v', none)) v h e = ground arith
get-expire now ttl (some (v', some end)) v h e = ground arith

-- EXPIRE after INCR holds the new count until the time to live is over.
pub expire-incr :
    (now ttl : ℕ) (c : Cell)
    → expire now ttl (incr now c).1 ≡ some (or_default (get now c) 0 + 1, some (now + ttl * second))
expire-incr now ttl none = refl
expire-incr now ttl (some (v, none)) = refl
expire-incr now ttl (some (v, some end)) = ground arith

-- INCR starts a key that is gone at 1, with no expiry.
pub incr-none : (now : ℕ) (c : Cell) → get now c ≡ none → incr now c ≡ (1, some (1, none))
incr-none now none e = refl
incr-none now (some (v, none)) e = cc
incr-none now (some (v, some end)) e = ground arith
