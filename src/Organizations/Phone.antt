-- ===== src/Organizations/Phone.antt =====
-- app/core/phone.py of auth_service. What `\d` matches is up to Python and to PostgreSQL: a test on
-- code points for each of the two.
use balt_oil.Text.{Text}
use balt_oil.Prelude.{
  All, Bool, Option, [], ap, arith, drop, if◌then◌else◌, keep, length, or_default, refl, some, ℕ,
  ◌&&◌, ◌-◌, ◌==◌, ◌||◌, ◌∙◌, ◌∷◌, ◌≡◌, Bool-cases, inl, inr,
}

abbrev pub last_ten : Text → Text
last_ten t = drop (length t - 10) t

-- Eleven digits, of which the first is 7 or 8, lose the first.
abbrev without_trunk : Text → Text
without_trunk [] = []
without_trunk (c ∷ rest) =
    if length (c ∷ rest) == 11 && (c == 55 || c == 56) then rest else c ∷ rest

-- `raw or ""`, without what is no digit.
unfoldable pub normalize_phone : (ℕ → Bool) → Option Text → Text
normalize_phone is_digit raw = last_ten (without_trunk (keep is_digit (or_default raw [])))

unfoldable pub normalized_phone_column : (ℕ → Bool) → Text → Text
normalized_phone_column is_digit col = last_ten (keep is_digit col)

last_ten-without_trunk : (t : Text) → last_ten (without_trunk t) ≡ last_ten t
last_ten-without_trunk [] = refl
last_ten-without_trunk (c ∷ rest) =
    elim (Bool-cases (length (c ∷ rest) == 11 && (c == 55 || c == 56))) [
      | inl cut ↦ let ten : length rest ≡ 10 = ground arith in rw (cut, ten) refl
      | inr whole ↦ rw whole refl
    ]

keep-agree : (p q : ℕ → Bool) (t : Text) → All (λ c. p c ≡ q c) t → keep p t ≡ keep q t
keep-agree p q [] h = refl
keep-agree p q (c ∷ t) h = ground (arith, h.0, keep-agree p q t h.1)

-- A number that is typed in and the same number in a row of the database have the same normal form,
-- for a number on whose characters Python and PostgreSQL agree.
pub normalize_phone-column :
    (python_digit sql_digit : ℕ → Bool) (raw : Text)
    → All (λ c. python_digit c ≡ sql_digit c) raw
    → normalize_phone python_digit (some raw) ≡ normalized_phone_column sql_digit raw
unfolding normalize_phone normalized_phone_column
normalize_phone-column python_digit sql_digit raw agree =
    last_ten-without_trunk (keep python_digit raw)
    ∙ ap last_ten (keep-agree python_digit sql_digit raw agree)
