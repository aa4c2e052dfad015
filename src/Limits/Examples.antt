-- ===== src/Limits/Examples.antt =====
-- Tests of the rate limits, and their theorems at concrete inputs.
use balt_oil.Limits.Throttle.{LoginSlot}
use balt_oil.Limits.HourCap.{issued, issued-le}
use balt_oil.Limits.Codes.{verify_code-issue_code}
use balt_oil.Limits.Otp.{OtpSlot, issue_code, rl_hour_cap, verify_code}
use balt_oil.Text.{codes}
use balt_oil.Redis.{second}
use balt_oil.Prelude.{[], arith, false, none, refl, some, true, ◌*◌, ◌∷◌, ◌≡◌, ◌≤◌}

abbrev empty_slot : OtpSlot
empty_slot = record { code = none; fail = none; rl_last = none; rl_hour = none }

abbrev failed_slot : OtpSlot
failed_slot = record {
  code = none;
  fail = some (5, some (400 * second));
  rl_last = none;
  rl_hour = none;
}

-- The code keeps its leading zeros.
issue_pads : (issue_code (100 * second) 4217 empty_slot).0 ≡ some (codes "004217")
unfolding issue_code
issue_pads = refl

-- A second request after half a minute gets nothing, and one after a minute a code.
pause_between_sends :
    issued ((100 * second, 1) ∷ (130 * second, 2) ∷ (160 * second, 3) ∷ []) empty_slot ≡ 2
unfolding issue_code
pause_between_sends = refl

verify_code-issue_code_example :
    let (passed, after) =
      verify_code (200 * second) (codes " 004217 ") (issue_code (100 * second) 4217 empty_slot).1 in
    (passed ≡ true) × ((verify_code (201 * second) (codes " 004217 ") after).0 ≡ false)
verify_code-issue_code_example =
    verify_code-issue_code (100 * second) (200 * second) (201 * second) 4217 empty_slot
      (codes " 004217 ") (codes "004217") issue_pads refl (omega arith) (omega arith) refl

issued-le_example :
    issued ((100 * second, 1) ∷ (130 * second, 2) ∷ (160 * second, 3) ∷ []) empty_slot ≤ rl_hour_cap
issued-le_example =
    issued-le (100 * second) ((100 * second, 1) ∷ (130 * second, 2) ∷ (160 * second, 3) ∷ [])
      empty_slot refl (omega arith)

abbrev four_failures : LoginSlot
four_failures = record { fail = some (4, some (900 * second)); block = none }
