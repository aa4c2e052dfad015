-- ===== src/Prices/Examples.antt =====
-- Tests of the prices, and their theorems at concrete inputs.
use balt_oil.Orders.Amounts.{manual_fuel_subtotal}
use balt_oil.Prices.Defaults.{archive_tariff, set_default_tariff, set_default_tariff-answers}
use balt_oil.Table.{Table}
use balt_oil.Prices.Breakdown.{per_liter_with_delivery-order_total}
use balt_oil.Prices.Formula.{visible_price}
use balt_oil.Prices.Tariffs.{
  Tariff, VolumeTier, compute_expected_amount, company_client, discount_for, get_default_tariff,
  individual_client, resolve_fuel_price,
}
use balt_oil.Prices.Money.{
  manual_price_lines, order_total, per_liter_with_delivery, price_first_breakdown, raw_total,
}
use balt_oil.Prices.Rounding.{half_even, half_up, half_up_abs, whole}
use balt_oil.Service.{TokenUser, err, internal_error, manager, validation, ok}
use balt_oil.Prelude.Int.{pos, ◌+ℤ◌, ◌-ℤ◌}
use balt_oil.Prelude.{List, [], arith, false, none, refl, some, true, ◌∷◌, ◌≡◌}

-- 593 litres at 90 roubles and 3200 roubles for the delivery: 95.40 roubles a litre.
quotes :
    order_total (some (whole (pos 5_337_000))) (some (pos 320_000)) (some 59_300) 22 false
    ≡ some (pos 5_657_220)
unfolding order_total price_first_breakdown half_up half_up_abs ◌+ℤ◌ ◌-ℤ◌
quotes = refl

per_liter_with_delivery-order_total_example :
    per_liter_with_delivery
      (order_total (some (whole (pos 5_337_000))) (some (pos 320_000)) (some 59_300) 22 false)
      (some 59_300)
    ≡ per_liter_with_delivery
        (some (raw_total (whole (pos 5_337_000)) (some (pos 320_000))))
        (some 59_300)
per_liter_with_delivery-order_total_example =
    per_liter_with_delivery-order_total (whole (pos 5_337_000)) (some (pos 320_000)) 59_300 22
      (omega arith)

abbrev tiers : List VolumeTier
tiers =
    record { min_volume = 100_000; discount_pct = 200 }
    ∷ record { min_volume = 500_000; discount_pct = 500 }
    ∷ []

discounts : discount_for 499_999 tiers ≡ 200
unfolding discount_for
discounts = refl

abbrev base_tariff : Tariff
base_tariff = record {
  is_default = true;
  base_delivery_cost = 0;
  client_type = none;
  base_tariff_id = none;
  formula_type = none;
  formula_value = none;
  formula_round_to = none;
  is_archived = false;
  fuel_prices =
      record { fuel_type = 1; price_per_liter = some (pos 900_000); is_hidden = false } ∷ [];
  volume_tiers = tiers;
}

-- A thousand litres at 90 roubles, with 2 per cent off.
expects :
    compute_expected_amount 1 100_000 none (some individual_client) 1000 ((5, base_tariff) ∷ [])
    ≡ ok (some (pos 8_820_000))
unfolding compute_expected_amount get_default_tariff resolve_fuel_price visible_price discount_for
    half_up half_up_abs ◌-ℤ◌
expects = refl

-- At 50.01 roubles 500.50 litres cost half a kopeck over an even number, and there are no lines.
no_lines :
    manual_price_lines
      (some 500_100)
      (some 50_050)
      none
      (order_total (some (whole (manual_fuel_subtotal 500_100 50_050))) none (some 50_050) 22 true)
      22
    ≡ none
unfolding manual_price_lines order_total manual_fuel_subtotal half_up half_up_abs half_even ◌+ℤ◌
    ◌-ℤ◌
no_lines = refl

-- Two tariffs for companies, the second one set as the default.
abbrev company_tariff : Tariff
company_tariff = record base_tariff { client_type = some company_client }

abbrev two_tariffs : Table Tariff
two_tariffs = (5, company_tariff) ∷ (6, record company_tariff { is_default = false }) ∷ []

abbrev tariffs_after : Table Tariff
tariffs_after = (5, record company_tariff { is_default = false }) ∷ (6, company_tariff) ∷ []

abbrev tariff_manager : TokenUser
tariff_manager = record { id = 2; role = manager }

sets_default : set_default_tariff 6 tariff_manager two_tariffs ≡ ok (tariffs_after, company_tariff)
unfolding set_default_tariff
sets_default = refl

set_default_tariff-answers_example :
    get_default_tariff (some company_client) tariffs_after ≡ ok (some company_tariff)
set_default_tariff-answers_example =
    set_default_tariff-answers 6 company_client tariff_manager two_tariffs tariffs_after
      company_tariff (refl, (refl, tt)) sets_default refl

-- Two live defaults of one type are an exception, and no order of that type gets a price.
two_defaults :
    get_default_tariff (some company_client) ((5, company_tariff) ∷ (6, company_tariff) ∷ [])
    ≡ err internal_error
unfolding get_default_tariff
two_defaults = refl

-- The default itself is not archived.
keeps_default : archive_tariff 5 tariff_manager two_tariffs ≡ err validation
unfolding archive_tariff
keeps_default = refl
