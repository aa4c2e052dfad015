-- ===== src/Limits/Throttle.antt =====
-- The login throttle (login_throttle.py): failures are counted for each identifier, and from the
-- fifth on they block it for a time that grows with their number.
use balt_oil.Redis.{
  Cell, expire, get, incr, second, set_ex, get-expire, get-incr, incr-counts, incr-none,
}
use balt_oil.Prelude.{
  Option, if◌then◌else◌, leb, ltb, none, or_default, some, ℕ, ◌*◌, ◌+◌, ◌-◌, ◌/◌, ◌==◌, ◌≡◌, ◌≤◌,
  Bool-cases, arith, inl, inr, true, ◌∙◌, All, List, [], refl, suc, ◌<◌, ◌∷◌,
}

abbrev pub fail_ttl : ℕ
fail_ttl = 3600

-- The keys `login_fail:{email}` and `login_block:{email}` of one identifier.
pub record LoginSlot : Type 0 where
  pub fail : Cell
  pub block : Cell

-- `_BACKOFF`, searched from the highest threshold down.
abbrev pub backoff : ℕ → Option ℕ
backoff n =
    if leb 30 n
    then some 7200
    else if leb 20 n
    then some 1800
    else if leb 10 n
    then some 300
    else if leb 5 n
    then some 60
    else none

-- Seconds that remain of the block; a rest below one second counts as none.
unfoldable pub check_blocked : ℕ → LoginSlot → Option ℕ
check_blocked now s = elim (get now s.block) [
  | none ↦ none
  | some until ↦
      let remaining = (until - now) / second in if ltb 0 remaining then some remaining else none
]

-- The block key after failure number n.
abbrev pub block_after : ℕ → Option ℕ → Cell → Cell
block_after now none block = block
block_after now (some block_secs) block = set_ex now (now + block_secs * second) (block_secs + 60)

unfoldable pub record_failure : ℕ → LoginSlot → LoginSlot
record_failure now s =
    let (n, counted) = incr now s.fail in
    record {
      fail = if n == 1 then expire now fail_ttl counted else counted;
      block = block_after now (backoff n) s.block;
    }

pub reset : LoginSlot → LoginSlot
reset s = record { fail = none; block = none }

-- The number of failures that still count.
abbrev pub failures : ℕ → LoginSlot → ℕ
failures now s = or_default (get now s.fail) 0

-- A failure is counted on top of those that still count.
pub failures-record_failure :
    (now : ℕ) (s : LoginSlot) → failures now (record_failure now s) ≡ failures now s + 1
unfolding record_failure
failures-record_failure now s = elim (Bool-cases ((incr now s.fail).0 == 1)) [
  | inl first ↦
      rw
        (
          first,
          get-expire now fail_ttl (incr now s.fail).1 (incr now s.fail).0 (omega arith)
              (get-incr now s.fail),
        )
        (incr-counts now s.fail)
  | inr more ↦ rw (more, get-incr now s.fail) (incr-counts now s.fail)
]

-- If a failure makes the count n, the identifier is blocked until less than a second is left of the
-- time for n: 60 s from 5 failures on, 300 s from 10, 1800 s from 20 and 7200 s from 30.
pub check_blocked-record_failure :
    (now later : ℕ) (s : LoginSlot) (n secs : ℕ)
    → failures now s + 1 ≡ n
    → backoff n ≡ some secs
    → now ≤ later
    → later + second ≤ now + secs * second
    → check_blocked later (record_failure now s) ≡ some ((now + secs * second - later) / second)
unfolding check_blocked record_failure
check_blocked-record_failure now later s n secs counted rule after within =
    let same : (incr now s.fail).0 ≡ n = incr-counts now s.fail ∙ counted in
    let later-blocks : ltb later (now + (secs + 60) * second) ≡ true = ground arith in
    let rest : ltb 0 ((now + secs * second - later) / second) ≡ true = ground arith in
    rw (same, rule) (rw (later-blocks, check_blocked) (rw rest))

-- A row of failures, one after another.
abbrev pub record_failures : List ℕ → LoginSlot → LoginSlot
record_failures [] s = s
record_failures (now ∷ rest) s = record_failures rest (record_failure now s)

record_failure-first :
    (now : ℕ) (s : LoginSlot)
    → get now s.fail ≡ none
    → (record_failure now s).fail ≡ some (1, some (now + fail_ttl * second))
unfolding record_failure
record_failure-first now s clean = rw (incr-none now s.fail clean) refl

record_failure-more :
    (now v end : ℕ) (s : LoginSlot)
    → s.fail ≡ some (suc v, some end)
    → now < end
    → (record_failure now s).fail ≡ some (suc (suc v), some end)
unfolding record_failure
record_failure-more now v end s held alive = rw held (ground arith)

record_failures-held :
    (end v : ℕ) (times : List ℕ) (s : LoginSlot)
    → s.fail ≡ some (suc v, some end)
    → All (λ (t : ℕ). t < end) times
    → failures end (record_failures times s) ≡ 0
record_failures-held end v [] s held w = rw held (ground arith)
record_failures-held end v (now ∷ rest) s held w =
    record_failures-held end (suc v) rest (record_failure now s)
      (record_failure-more now v end s held w.0) w.1

-- An hour after the first failure no failure counts any more, however many followed within that
-- hour and however short ago the last one was.
pub failures-window :
    (start : ℕ) (times : List ℕ) (s : LoginSlot)
    → get start s.fail ≡ none
    → All (λ (t : ℕ). t < start + fail_ttl * second) times
    → failures (start + fail_ttl * second) (record_failures times (record_failure start s)) ≡ 0
failures-window start times s clean within =
    record_failures-held (start + fail_ttl * second) 0 times (record_failure start s)
      (record_failure-first start s clean) within
