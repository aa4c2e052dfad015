-- ===== src/Prices/Formula.antt =====
-- app/services/tariff_formula.py: the prices of a tariff that follow another one. A price is in
-- ten-thousandths of a rouble, a formula's value in ten-thousandths of a per cent or of a rouble,
-- a step of rounding in kopecks. A fuel is the number of its code in capitals.
use balt_oil.Prices.Rounding.{half_up, scale, times}
use balt_oil.Prelude.Int.{leb_ℤ, pos, ℤ, ◌+ℤ◌}
use balt_oil.Prelude.{
  Bool, List, Option, [], any, if◌then◌else◌, none, not, some, ℕ, ◌&&◌, ◌*◌, ◌==◌, ◌∷◌,
}

pub data FormulaType : Type 0 where
  percent fixed equal : FormulaType

-- MIN_PRICE
abbrev pub min_price : ℤ
min_price = pos 1

unfoldable pub round_to_step : ℤ → Option ℕ → ℤ
round_to_step price none = price
round_to_step price (some step) =
    if step == 0 then price else scale (half_up price (100 * step)) (100 * step)

abbrev pub at_least : ℤ → ℤ → ℤ
at_least least price = if leb_ℤ least price then price else least

abbrev pub per_cent : ℤ → ℤ → ℤ
per_cent price value = times price (pos 1_000_000 +ℤ value)

unfoldable pub apply_formula : ℤ → Option FormulaType → Option ℤ → Option ℕ → ℤ
apply_formula base_price (some equal) formula_value round_to = round_to_step base_price round_to
apply_formula base_price none formula_value round_to = base_price
apply_formula base_price (some kind) none round_to = base_price
apply_formula base_price (some percent) (some value) round_to =
    at_least min_price (round_to_step (half_up (per_cent base_price value) 1_000_000) round_to)
apply_formula base_price (some fixed) (some value) round_to =
    at_least min_price (round_to_step (base_price +ℤ value) round_to)

pub record PriceRow : Type 0 where
  pub fuel_type : ℕ
  pub price_per_liter : Option ℤ
  pub is_hidden : Bool

-- Is the fuel among the rows that are hidden?
abbrev pub hides : ℕ → List PriceRow → Bool
hides fuel rows = any (λ r. r.fuel_type == fuel && r.is_hidden) rows

unfoldable pub derive_price_rows :
    List PriceRow → List PriceRow → Option FormulaType → Option ℤ → Option ℕ → List PriceRow
derive_price_rows [] own_rows kind value round_to = []
derive_price_rows (row ∷ rows) own_rows kind value round_to =
    let rest = derive_price_rows rows own_rows kind value round_to in
    elim row.price_per_liter [
      | none ↦ rest
      | some price ↦
          if row.is_hidden
          then rest
          else record {
            fuel_type = row.fuel_type;
            price_per_liter = some (apply_formula price kind value round_to);
            is_hidden = hides row.fuel_type own_rows;
          }
            ∷ rest
    ]

-- `visible_prices(rows).get(fuel)`: of several rows of a fuel the last one is in the dict.
unfoldable pub visible_price : ℕ → List PriceRow → Option ℤ
visible_price fuel [] = none
visible_price fuel (row ∷ rows) = elim (visible_price fuel rows) [
  | some later ↦ some later
  | none ↦ if row.fuel_type == fuel && not row.is_hidden then row.price_per_liter else none
]
