-- ===== src/Prices/Quotes.antt =====
-- What the tariffs promise.
use balt_oil.Prices.Tariffs.{
  ClientType, PriceBreakdown, Tariff, compute_expected_amount, compute_price_breakdown,
}
use balt_oil.Prices.Formula.{FormulaType, apply_formula, equal, fixed, min_price, percent}
use balt_oil.Table.{Table}
use balt_oil.Service.{ok, ◌>>=◌}
use balt_oil.Prelude.Int.{ℤ, ◌≤ℤ◌}
use balt_oil.Prelude.{Option, some, ℕ, ◌≡◌, ◌≢◌, arith, refl}

-- A price that a mark-up or a discount gives is never below the least price.
pub apply_formula-min :
    (base_price value : ℤ) (kind : FormulaType) (round_to : Option ℕ)
    → kind ≢ equal
    → min_price ≤ℤ apply_formula base_price (some kind) (some value) round_to
unfolding apply_formula
apply_formula-min base_price value percent round_to priced = grind arith
apply_formula-min base_price value fixed round_to priced = grind arith
apply_formula-min base_price value equal round_to priced = absurd (priced refl)

-- The price shown before an order and the sum stored with it agree, whatever the tariffs are.
pub compute_expected_amount-breakdown :
    (fuel volume : ℕ) (tariff_id : Option ℕ) (kind : Option ClientType) (fuel_coefficient : ℕ)
    (tariffs : Table Tariff)
    → compute_expected_amount fuel volume tariff_id kind fuel_coefficient tariffs ≡ (
        compute_price_breakdown fuel volume tariff_id kind fuel_coefficient tariffs
        >>= λ (b : PriceBreakdown). ok b.fuel_subtotal)
unfolding compute_expected_amount compute_price_breakdown
compute_expected_amount-breakdown fuel volume tariff_id kind fuel_coefficient tariffs = ground arith
