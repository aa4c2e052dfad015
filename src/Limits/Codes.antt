-- ===== src/Limits/Codes.antt =====
-- What the limits of the one-time codes promise.
use balt_oil.Redis.{second, get, set_ex}
use balt_oil.Prelude.{
  [], arith, false, none, refl, some, true, ℕ, ◌*◌, ◌+◌, ◌<◌, ◌∷◌, ◌≡◌, ◌≤◌, ap, ◌∙◌,
}
use balt_oil.Text.{Text, strip}
use balt_oil.Limits.Otp.{OtpSlot, issue_code, otp_ttl, same_text, too_many, verify_code, six_digits}

same_text_refl : (s : Text) → same_text s s ≡ true
same_text_refl [] = refl
same_text_refl (c ∷ s) = ground (arith, same_text_refl s)

issue_code-fail : (now drawn : ℕ) (s : OtpSlot) → (issue_code now drawn s).1.fail ≡ s.fail
unfolding issue_code
issue_code-fail now drawn s = ground arith

issue_code-code :
    (now drawn : ℕ) (s : OtpSlot) (sent : Text)
    → (issue_code now drawn s).0 ≡ some sent
    → (sent ≡ six_digits drawn) × ((issue_code now drawn s).1.code ≡ set_ex now drawn otp_ttl)
unfolding issue_code
issue_code-code now drawn s sent e = ground arith

verify_code-passes :
    (now stored : ℕ) (s : OtpSlot) (guess : Text)
    → too_many now s ≡ false
    → get now s.code ≡ some stored
    → strip guess ≡ six_digits stored
    → verify_code now guess s ≡ (true, record s { code = none; fail = none })
unfolding verify_code
verify_code-passes now stored s guess few held typed =
    ground (arith, same_text_refl (six_digits stored), ap (same_text (six_digits stored)) typed)

verify_code-empty :
    (now : ℕ) (s : OtpSlot) (guess : Text) → s.code ≡ none → (verify_code now guess s).0 ≡ false
unfolding verify_code
verify_code-empty now s guess gone = rw gone (ground arith)

verify_code-locked :
    (now : ℕ) (s : OtpSlot) (guess : Text)
    → too_many now s ≡ true
    → verify_code now guess s ≡ (false, record s { code = none })
unfolding verify_code
verify_code-locked now s guess many = ground arith

-- A code that was issued passes once within its five minutes, whatever blanks stand round it, if
-- the failures before it are within the limit; the same code is then refused.
pub verify_code-issue_code :
    (now later again drawn : ℕ) (s : OtpSlot) (guess sent : Text)
    → (issue_code now drawn s).0 ≡ some sent
    → strip guess ≡ sent
    → now ≤ later
    → later < now + otp_ttl * second
    → too_many later s ≡ false
    → let (passed, after) = verify_code later guess (issue_code now drawn s).1 in
      (passed ≡ true) × ((verify_code again guess after).0 ≡ false)
verify_code-issue_code now later again drawn s guess sent issued typed after alive few =
    let (same, stored) = issue_code-code now drawn s sent issued in
    let s' = (issue_code now drawn s).1 in
    let few' : too_many later s' ≡ false = rw (issue_code-fail now drawn s, too_many) few in
    let held : get later s'.code ≡ some drawn = rw stored (ground arith) in
    rw (verify_code-passes later drawn s' guess few' held (typed ∙ same))
      (refl, verify_code-empty again (record s' { code = none; fail = none }) guess refl)

-- After five failures that still count, a new code is sent and cannot be used: the count outlives
-- the code, and the next guess deletes the new code.
pub verify_code_locked :
    (now later drawn : ℕ) (s : OtpSlot) (guess : Text)
    → too_many later s ≡ true
    → let (passed, after) = verify_code later guess (issue_code now drawn s).1 in
      (passed ≡ false) × (after.code ≡ none)
verify_code_locked now later drawn s guess many =
    let s' = (issue_code now drawn s).1 in
    let many' : too_many later s' ≡ true = rw (issue_code-fail now drawn s, too_many) many in
    rw (verify_code-locked later s' guess many') (refl, refl)
