-- ===== src/Prices/Money.antt =====
-- app/services/money.py: the total of an order by its price per litre. Amounts are whole kopecks,
-- volumes hundredths of a litre, the price of a manager ten-thousandths of a rouble per litre.
use balt_oil.Prices.Rounding.{Fraction, half_up, scale}
use balt_oil.Prelude.Int.{abs, ltb_ℤ, pos, ℤ, ◌+ℤ◌, ◌-ℤ◌}
use balt_oil.Prelude.{
  Bool, List, Option, [], if◌then◌else◌, none, not, or_default, some, ℕ, ◌*◌, ◌+◌, ◌==◌, ◌||◌, ◌∷◌,
}

-- `price_first_breakdown`, but for its names.
pub record Breakdown : Type 0 where
  pub unit_gross : ℤ
  pub unit_no_vat : ℤ
  pub sum_no_vat : ℤ
  pub vat : ℤ
  pub total : ℤ

abbrev pub breakdown_of : ℤ → ℕ → ℕ → Breakdown
breakdown_of raw volume vat_rate =
    let unit_gross = half_up (scale raw 100) volume in
    let total = half_up (scale unit_gross volume) 100 in
    let sum_no_vat = half_up (scale total 100) (100 + vat_rate) in
    record {
      unit_gross = unit_gross;
      unit_no_vat = half_up (scale sum_no_vat 100) volume;
      sum_no_vat = sum_no_vat;
      vat = total -ℤ sum_no_vat;
      total = total;
    }

unfoldable pub price_first_breakdown : Option ℤ → Option ℕ → ℕ → Option Breakdown
price_first_breakdown none volume vat_rate = none
price_first_breakdown (some raw) none vat_rate = none
price_first_breakdown (some raw) (some volume) vat_rate =
    if volume == 0 then none else some (breakdown_of raw volume vat_rate)

-- Fuel and delivery together, rounded to a kopeck.
abbrev pub raw_total : Fraction → Option ℤ → ℤ
raw_total fuel delivery_cost =
    half_up (fuel.num +ℤ scale (or_default delivery_cost (pos 0)) fuel.den) fuel.den

unfoldable pub order_total : Option Fraction → Option ℤ → Option ℕ → ℕ → Bool → Option ℤ
order_total none delivery_cost volume vat_rate exact = none
order_total (some fuel) delivery_cost volume vat_rate exact =
    let raw = raw_total fuel delivery_cost in
    if exact then some raw else elim (price_first_breakdown (some raw) volume vat_rate) [
      | none ↦ some raw
      | some parts ↦ some parts.total
    ]

unfoldable pub per_liter_with_delivery : Option ℤ → Option ℕ → Option ℤ
per_liter_with_delivery none volume = none
per_liter_with_delivery (some total) none = none
per_liter_with_delivery (some total) (some volume) =
    if volume == 0 then none else some (half_up (scale total 100) volume)

pub data LineKind : Type 0 where
  fuel_line delivery_line : LineKind

-- A line of an invoice; `qty` is in hundredths.
pub record InvoiceLine : Type 0 where
  pub kind : LineKind
  pub qty : ℕ
  pub sum : ℤ
  pub sum_no_vat : ℤ
  pub vat : ℤ
  pub price_no_vat : ℤ

abbrev pub line : ℕ → LineKind → ℕ → ℤ → InvoiceLine
line vat_rate kind qty gross =
    let net = half_up (scale gross 100) (100 + vat_rate) in
    record {
      kind = kind;
      qty = qty;
      sum = gross;
      sum_no_vat = net;
      vat = gross -ℤ net;
      price_no_vat = half_up (scale net 100) qty;
    }

abbrev pub sum_of : (InvoiceLine → ℤ) → List InvoiceLine → ℤ
sum_of f [] = pos 0
sum_of f (l ∷ ls) = f l +ℤ sum_of f ls

pub record ManualLines : Type 0 where
  pub lines : List InvoiceLine
  pub subtotal_no_vat : ℤ
  pub vat : ℤ
  pub total : ℤ

abbrev pub lines_of : ℕ → ℕ → ℤ → ℤ → List InvoiceLine
lines_of vat_rate volume fuel_gross delivery =
    line vat_rate fuel_line volume fuel_gross
    ∷ (if ltb_ℤ (pos 0) delivery then line vat_rate delivery_line 100 delivery ∷ [] else [])

-- `price * vol`, rounded to a kopeck.
abbrev pub fuel_gross : ℕ → ℕ → ℤ
fuel_gross price volume = half_up (pos (price * volume)) 10_000

unfoldable pub manual_price_lines :
    Option ℕ → Option ℕ → Option ℤ → Option ℤ → ℕ → Option ManualLines
manual_price_lines (some price) (some volume) delivery_cost (some total) vat_rate =
    let delivery = or_default delivery_cost (pos 0) in
    let gross = fuel_gross price volume in
    let lines = lines_of vat_rate volume gross delivery in
    if volume == 0 || not (abs (gross +ℤ delivery -ℤ total) == 0)
    then none
    else some record {
      lines = lines;
      subtotal_no_vat = sum_of InvoiceLine.sum_no_vat lines;
      vat = sum_of InvoiceLine.vat lines;
      total = sum_of InvoiceLine.sum lines;
    }
manual_price_lines _ _ _ _ _ = none
