-- ===== src/Prices/Breakdown.antt =====
-- What the parts of a price add up to.
use balt_oil.Prices.Money.{
  ManualLines, manual_price_lines, order_total, per_liter_with_delivery, price_first_breakdown,
  raw_total, InvoiceLine, LineKind, fuel_gross, line, lines_of, sum_of,
}
use balt_oil.Prices.Rounding.{Fraction, half_up, half_up_back, half_up_near, scale}
use balt_oil.Prelude.Int.{abs, leb_ℤ, pos, ℤ, ◌+ℤ◌, ◌-ℤ◌, int_laws, ltb_ℤ}
use balt_oil.Prelude.{
  Option, false, or_default, some, true, ℕ, ◌*◌, ◌+◌, ◌≡◌, ◌≤◌, arith, Bool-cases, inl, inr, not,
  suc, zero, ◌==◌, ◌||◌, ◌∙◌,
}

-- The price per litre with delivery that is shown for an order of at least one litre is the rounded
-- price that its total was made from, where the total was made from such a price (`exact` is false,
-- as it is without a price of a manager).
pub per_liter_with_delivery-order_total :
    (fuel : Fraction) (delivery_cost : Option ℤ) (volume vat_rate : ℕ)
    → 100 ≤ volume
    → per_liter_with_delivery
        (order_total (some fuel) delivery_cost (some volume) vat_rate false)
        (some volume)
      ≡ per_liter_with_delivery (some (raw_total fuel delivery_cost)) (some volume)
unfolding per_liter_with_delivery order_total price_first_breakdown
per_liter_with_delivery-order_total fuel delivery_cost volume vat_rate enough =
    ground
      (arith, half_up_back (half_up (scale (raw_total fuel delivery_cost) 100) volume) volume 100)

-- The total differs from the exact sum of fuel and delivery by at most half a kopeck and half a
-- kopeck for each litre.
pub order_total-near :
    (fuel : Fraction) (delivery_cost : Option ℤ) (volume vat_rate : ℕ) (total : ℤ)
    → order_total (some fuel) delivery_cost (some volume) vat_rate false ≡ some total
    → 200 * abs (total -ℤ raw_total fuel delivery_cost) ≤ volume + 100
unfolding order_total price_first_breakdown
order_total-near fuel delivery_cost zero vat_rate total e =
    let same : total ≡ raw_total fuel delivery_cost = ground arith in rw same (grind int_laws)
order_total-near fuel delivery_cost (suc v) vat_rate total e =
    let raw = raw_total fuel delivery_cost in
    let same : total ≡ half_up (scale (half_up (scale raw 100) (suc v)) (suc v)) 100 =
      ground arith in
    rw same (omega (arith, half_up_near raw (suc v) 100 (omega arith) (omega arith)))

line-splits :
    (vat_rate qty : ℕ) (kind : LineKind) (gross : ℤ)
    → (line vat_rate kind qty gross).sum_no_vat +ℤ (line vat_rate kind qty gross).vat ≡ gross
line-splits vat_rate qty kind gross = grind int_laws

lines_of-total :
    (vat_rate volume : ℕ) (gross delivery : ℤ)
    → leb_ℤ (pos 0) delivery ≡ true
    → (sum_of InvoiceLine.sum (lines_of vat_rate volume gross delivery) ≡ gross +ℤ delivery)
      × (sum_of InvoiceLine.sum_no_vat (lines_of vat_rate volume gross delivery)
            +ℤ sum_of InvoiceLine.vat (lines_of vat_rate volume gross delivery)
          ≡ gross +ℤ delivery)
lines_of-total vat_rate volume gross delivery owed = elim (Bool-cases (ltb_ℤ (pos 0) delivery)) [
  | inl charged ↦ rw charged (grind int_laws, grind int_laws)
  | inr free ↦ rw free (grind int_laws, grind int_laws)
]

abs_zero : (a b : ℤ) → (abs (a -ℤ b) == 0) ≡ true → a ≡ b
abs_zero a b h = grind int_laws

manual_price_lines-stores :
    (price volume vat_rate : ℕ) (delivery_cost : Option ℤ) (total : ℤ) (m : ManualLines)
    → manual_price_lines (some price) (some volume) delivery_cost (some total) vat_rate ≡ some m
    → let delivery = or_default delivery_cost (pos 0) in
      let lines = lines_of vat_rate volume (fuel_gross price volume) delivery in
      (fuel_gross price volume +ℤ delivery ≡ total)
      × (m.total ≡ sum_of InvoiceLine.sum lines)
      × (m.subtotal_no_vat ≡ sum_of InvoiceLine.sum_no_vat lines)
      × (m.vat ≡ sum_of InvoiceLine.vat lines)
unfolding manual_price_lines
manual_price_lines-stores price volume vat_rate delivery_cost total m e =
    let delivery = or_default delivery_cost (pos 0) in
    let gross = fuel_gross price volume in
    let lines = lines_of vat_rate volume gross delivery in
    elim (Bool-cases (volume == 0 || not (abs (gross +ℤ delivery -ℤ total) == 0))) [
      | inl refused ↦ absurd (ground arith)
      | inr kept ↦
          let same : gross +ℤ delivery ≡ total =
            abs_zero (gross +ℤ delivery) total (ground arith) in
          (same, ground arith, ground arith, ground arith)
    ]

-- The lines of an invoice with a manager's price add up to the total of the order, and their net
-- sums and taxes too.
pub manual_price_lines-total :
    (price volume vat_rate : ℕ) (delivery_cost : Option ℤ) (total : ℤ) (m : ManualLines)
    → leb_ℤ (pos 0) (or_default delivery_cost (pos 0)) ≡ true
    → manual_price_lines (some price) (some volume) delivery_cost (some total) vat_rate ≡ some m
    → (m.total ≡ total) × (m.subtotal_no_vat +ℤ m.vat ≡ total)
unfolding manual_price_lines
manual_price_lines-total price volume vat_rate delivery_cost total m owed e =
    let delivery = or_default delivery_cost (pos 0) in
    let gross = fuel_gross price volume in
    let (sums, nets) = lines_of-total vat_rate volume gross delivery owed in
    let (agrees, t, n, v) : (gross +ℤ delivery ≡ total)
        × (m.total ≡ sum_of InvoiceLine.sum (lines_of vat_rate volume gross delivery))
        × (m.subtotal_no_vat
            ≡ sum_of InvoiceLine.sum_no_vat (lines_of vat_rate volume gross delivery))
        × (m.vat ≡ sum_of InvoiceLine.vat (lines_of vat_rate volume gross delivery)) =
      manual_price_lines-stores price volume vat_rate delivery_cost total m e in
    (t ∙ sums ∙ agrees, rw (n, v) (nets ∙ agrees))
