-- ===== src/Limits/Otp.antt =====
-- One-time codes (otp_service.py): six digits with a life of five minutes, a pause between sends, at
-- most five sends an hour, and at most five wrong guesses.
use balt_oil.Prelude.{
  Bool, Option, [], false, if◌then◌else◌, leb, ltb, none, some, true, ℕ, ◌%◌, ◌&&◌, ◌*◌, ◌+◌, ◌-◌,
  ◌/◌, ◌==◌, ◌||◌, ◌∷◌,
}
use balt_oil.Redis.{Cell, expire, get, incr, second, set_ex}
use balt_oil.Text.{Text, strip}

abbrev pub otp_ttl : ℕ
otp_ttl = 300

abbrev pub rl_min_interval : ℕ
rl_min_interval = 60

abbrev pub rl_hour_cap : ℕ
rl_hour_cap = 5

abbrev pub rl_hour_ttl : ℕ
rl_hour_ttl = 3600

abbrev pub max_verify_attempts : ℕ
max_verify_attempts = 5

-- The four keys of one purpose and phone. A stored code is the number that `randbelow` drew; the
-- last send is its moment.
pub record OtpSlot : Type 0 where
  pub code : Cell
  pub fail : Cell
  pub rl_last : Cell
  pub rl_hour : Cell

-- `f"{n:06d}"` of a number below a million
abbrev pub six_digits : ℕ → Text
six_digits n =
    (b'0' + n / 100_000 % 10)
    ∷ (b'0' + n / 10_000 % 10)
    ∷ (b'0' + n / 1000 % 10)
    ∷ (b'0' + n / 100 % 10)
    ∷ (b'0' + n / 10 % 10)
    ∷ (b'0' + n % 10)
    ∷ []

abbrev pub same_text : Text → Text → Bool
same_text [] [] = true
same_text (a ∷ s) (b ∷ t) = a == b && same_text s t
same_text _ _ = false

-- Was the last send less than the pause ago?
abbrev pub too_soon : ℕ → OtpSlot → Bool
too_soon now s = elim (get now s.rl_last) [
  | none ↦ false
  | some last ↦ ltb (now - last) (rl_min_interval * second)
]

abbrev pub capped : ℕ → OtpSlot → Bool
capped now s = elim (get now s.rl_hour) [ none ↦ false | some n ↦ leb rl_hour_cap n ]

-- `drawn` is the answer of `secrets.randbelow(1_000_000)`.
unfoldable pub issue_code : ℕ → ℕ → OtpSlot → Option Text × OtpSlot
issue_code now drawn s = if too_soon now s || capped now s then (none, s) else (
  some (six_digits drawn),
  record s {
    code = set_ex now drawn otp_ttl;
    rl_last = set_ex now now rl_hour_ttl;
    rl_hour = expire now rl_hour_ttl (incr now s.rl_hour).1;
  },
)

abbrev pub too_many : ℕ → OtpSlot → Bool
too_many now s = elim (get now s.fail) [ none ↦ false | some n ↦ leb max_verify_attempts n ]

-- The comparison with a stored code.
abbrev pub check_code : ℕ → Text → Option ℕ → OtpSlot → Bool × OtpSlot
check_code now guess none s = (false, s)
check_code now guess (some stored) s =
    if same_text (six_digits stored) (strip guess)
    then (true, record s { code = none; fail = none })
    else (false, record s { fail = expire now otp_ttl (incr now s.fail).1 })

unfoldable pub verify_code : ℕ → Text → OtpSlot → Bool × OtpSlot
verify_code now guess s =
    if too_many now s
    then (false, record s { code = none })
    else check_code now guess (get now s.code) s
