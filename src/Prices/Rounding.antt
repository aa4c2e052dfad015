-- ===== src/Prices/Rounding.antt =====
-- Decimal.quantize with ROUND_HALF_UP, over whole units: a quotient is rounded to the nearest
-- whole number, and half a unit goes away from zero.
use native.Mathlib.Nat.{
  div-mul-le_self, lt-div-mul-add, le-div_iff_mul-le, div-lt_iff_lt-mul, div-eq_of_lt, div-add-mod,
  mod-lt,
}
use balt_oil.Prelude.Int.{pos, negsuc, ℤ, abs, ◌-ℤ◌}
use balt_oil.Prelude.{
  refl, zero, suc, inl, inr, Bool-cases, ◌==◌, arith, ℕ, ◌*◌, ◌+◌, ◌/◌, ◌<◌, ◌≡◌, ◌≤◌, ap, ◌⊎◌,
  if◌then◌else◌, ltb, ◌%◌, sym, ◌≢◌,
}

-- A decimal that is not rounded yet, as a numerator over a denominator that is not 0.
pub record Fraction : Type 0 where
  pub num : ℤ
  pub den : ℕ

abbrev pub whole : ℤ → Fraction
whole a = record { num = a; den = 1 }

abbrev pub minus : ℕ → ℤ
minus zero = pos 0
minus (suc n) = negsuc n

abbrev pub scale : ℤ → ℕ → ℤ
scale (pos n) k = pos (n * k)
scale (negsuc n) k = minus (suc n * k)

abbrev pub times : ℤ → ℤ → ℤ
times a (pos n) = scale a n
times (pos m) (negsuc n) = minus (m * suc n)
times (negsuc m) (negsuc n) = pos (suc m * suc n)

unfoldable pub half_up_abs : ℕ → ℕ → ℕ
half_up_abs a d = (2 * a + d) / (2 * d)

-- The default of `quantize`, ROUND_HALF_EVEN, of a number that is not negative.
unfoldable pub half_even : ℕ → ℕ → ℕ
half_even a d =
    let q = a / d in
    let r = a % d in if ltb (2 * r) d then q else if ltb d (2 * r) then q + 1 else q + q % 2

unfoldable pub half_up : ℤ → ℕ → ℤ
half_up (pos n) d = pos (half_up_abs n d)
half_up (negsuc n) d = minus (half_up_abs (suc n) d)

abbrev pub quantize : Fraction → ℤ
quantize f = half_up f.num f.den

pub half_up_abs-bounds :
    (a d : ℕ)
    → 1 ≤ d
    → (2 * (d * half_up_abs a d) ≤ 2 * a + d) × (2 * a < 2 * (d * half_up_abs a d) + d)
unfolding half_up_abs
half_up_abs-bounds a d p =
    let low = div-mul-le_self (2 * a + d) (2 * d) in
    let high = lt-div-mul-add {a = 2 * a + d} {b = 2 * d} (omega arith) in omega arith

-- The rounded quotient is the only number that is as near.
pub half_up_abs_unique :
    (a d q : ℕ) → 1 ≤ d → 2 * (d * q) ≤ 2 * a + d → 2 * a < 2 * (d * q) + d → half_up_abs a d ≡ q
unfolding half_up_abs
half_up_abs_unique a d q p low high =
    let reach : q ≤ (2 * a + d) / (2 * d) =
      (le-div_iff_mul-le {k = 2 * d} {x = q} {y = 2 * a + d} (omega arith)).1 (omega arith) in
    let below : (2 * a + d) / (2 * d) < q + 1 =
      (div-lt_iff_lt-mul {k = 2 * d} {x = 2 * a + d} {y = q + 1} (omega arith)).1 (omega arith) in
    omega arith

half_up_abs_zero : (d : ℕ) → half_up_abs 0 d ≡ 0
unfolding half_up_abs
half_up_abs_zero zero = refl
half_up_abs_zero (suc d) = div-eq_of_lt {n = 2 * 0 + suc d} {m = 2 * suc d} (omega arith)

half_up_abs_back : (u v c : ℕ) → 1 ≤ c → c ≤ v → half_up_abs (half_up_abs (u * v) c * c) v ≡ u
half_up_abs_back u v c some_ enough =
    let t = half_up_abs (u * v) c in
    let (low, high) = half_up_abs-bounds (u * v) c some_ in
    elim (Bool-cases (c == v)) [
      | inl one_unit ↦
          let same : v ≡ c = ground arith in
          let whole_ : t ≡ u =
            half_up_abs_unique (u * v) c u some_ (rw same (grind arith)) (rw same (grind arith)) in
          rw (whole_, same) (half_up_abs_unique (u * c) c u some_ (grind arith) (grind arith))
      | inr more ↦ half_up_abs_unique (t * c) v u (omega arith) (grind arith) (ground arith)
    ]

half_up-minus : (n d : ℕ) → half_up (minus n) d ≡ minus (half_up_abs n d)
unfolding half_up
half_up-minus zero d = rw (half_up_abs_zero d) refl
half_up-minus (suc n) d = refl

scale-minus : (n k : ℕ) → scale (minus n) k ≡ minus (n * k)
scale-minus zero k = ground arith
scale-minus (suc n) k = refl

-- A price times a number of units, rounded, gives the price back when it is spread over the units
-- again, if there are enough units (`c` hundredths make one).
pub half_up_back :
    (u : ℤ) (v c : ℕ) → 1 ≤ c → c ≤ v → half_up (scale (half_up (scale u v) c) c) v ≡ u
unfolding half_up
half_up_back (pos n) v c some_ enough = rw (half_up_abs_back n v c some_ enough) refl
half_up_back (negsuc n) v c some_ enough =
    rw
      (
        half_up-minus (suc n * v) c,
        scale-minus (half_up_abs (suc n * v) c) c,
        half_up-minus (half_up_abs (suc n * v) c * c) v,
        half_up_abs_back (suc n) v c some_ enough,
      )
      refl

pub half_even-half_up : (a d : ℕ) → 1 ≤ d → 2 * (a % d) ≢ d → half_even a d ≡ half_up_abs a d
unfolding half_even
half_even-half_up a d some_ no_half =
    let q = a / d in
    let r = a % d in
    let whole_ : d * q + r ≡ a = div-add-mod a d in
    let small : r < d = mod-lt a some_ in
    elim (Bool-cases (ltb (2 * r) d)) [
      | inl down ↦ rw down (sym (half_up_abs_unique a d q some_ (grind arith) (grind arith)))
      | inr not_down ↦ elim (Bool-cases (ltb d (2 * r))) [
        | inl up ↦
            rw (not_down, up)
              (sym (half_up_abs_unique a d (q + 1) some_ (grind arith) (grind arith)))
        | inr tie ↦ absurd (no_half (ground arith))
      ]
    ]

pub half_up_one : (a : ℤ) → half_up a 1 ≡ a
unfolding half_up
half_up_one (pos n) = rw (half_up_abs_unique n 1 n (omega arith) (omega arith) (omega arith)) refl
half_up_one (negsuc n) =
    rw (half_up_abs_unique (suc n) 1 (suc n) (omega arith) (omega arith) (omega arith)) refl

pub scale_one : (a : ℤ) → scale a 1 ≡ a
scale_one (pos n) = ground arith
scale_one (negsuc n) = ground arith

-- A total that goes through a rounded price per unit stays near the sum that it was made from.
half_up_abs_near :
    (r v c : ℕ)
    → 1 ≤ c
    → 1 ≤ v
    → let t = half_up_abs (half_up_abs (r * c) v * v) c in
      (2 * (c * t) ≤ 2 * (c * r) + v + c) × (2 * (c * r) ≤ 2 * (c * t) + v + c)
half_up_abs_near r v c some_ any_ =
    let u = half_up_abs (r * c) v in
    let (low, high) = half_up_abs-bounds (r * c) v any_ in
    let (low', high') = half_up_abs-bounds (u * v) c some_ in grind arith

abs_pos : (a b : ℕ) → (abs (pos a -ℤ pos b) + b ≡ a) ⊎ (abs (pos a -ℤ pos b) + a ≡ b)
unfolding ◌-ℤ◌
abs_pos a b = ground arith

abs-minus : (a b : ℕ) → abs (minus a -ℤ minus b) ≡ abs (pos a -ℤ pos b)
unfolding ◌-ℤ◌
abs-minus zero zero = refl
abs-minus zero (suc b) = ground arith
abs-minus (suc a) zero = ground arith
abs-minus (suc a) (suc b) = ground arith

scaled_apart :
    (t r m c : ℕ)
    → 2 * (c * t) ≤ 2 * (c * r) + m
    → 2 * (c * r) ≤ 2 * (c * t) + m
    → 2 * (c * abs (pos t -ℤ pos r)) ≤ m
scaled_apart t r m c low high =
    let w = abs (pos t -ℤ pos r) in
    elim (abs_pos t r) [
      | inl above ↦ let wide : c * (w + r) ≡ c * t = ap (◌*◌ c) above in grind arith
      | inr under ↦ let wide : c * (w + t) ≡ c * r = ap (◌*◌ c) under in grind arith
    ]

pub half_up_near :
    (r : ℤ) (v c : ℕ)
    → 1 ≤ c
    → 1 ≤ v
    → 2 * (c * abs (half_up (scale (half_up (scale r c) v) v) c -ℤ r)) ≤ v + c
unfolding half_up
half_up_near (pos r) v c some_ any_ =
    let (low, high) = half_up_abs_near r v c some_ any_ in
    scaled_apart (half_up_abs (half_up_abs (r * c) v * v) c) r (v + c) c (omega arith) (omega arith)
half_up_near (negsuc r) v c some_ any_ =
    let t = half_up_abs (half_up_abs (suc r * c) v * v) c in
    let (low, high) = half_up_abs_near (suc r) v c some_ any_ in
    let same : half_up (scale (half_up (scale (negsuc r) c) v) v) c ≡ minus t =
      rw
        (
          half_up-minus (suc r * c) v,
          scale-minus (half_up_abs (suc r * c) v) v,
          half_up-minus (half_up_abs (suc r * c) v * v) c,
        )
        refl in
    rw (same, abs-minus t (suc r)) (scaled_apart t (suc r) (v + c) c (omega arith) (omega arith))
