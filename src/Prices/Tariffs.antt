-- ===== src/Prices/Tariffs.antt =====
-- app/services/pricing_service.py and payment_type_rules.py: what a tariff asks for fuel and for the
-- delivery, and who may pay how. Coefficients are in thousandths, discounts in hundredths of a per
-- cent, the cost of a delivery in kopecks.
use balt_oil.Payments.Defs.{PaymentType, debt, on_delivery, postpaid, prepaid, trade_credit}
use balt_oil.Prices.Formula.{FormulaType, PriceRow, derive_price_rows, visible_price}
use balt_oil.Prices.Rounding.{half_up, scale, times, Fraction, quantize, whole}
use balt_oil.Table.{Table, lookup}
use balt_oil.Service.{
  Result, err, internal_error, ok, ◌>>=◌, Role, is_client, raise_if, validation, ◌>>◌,
}
use balt_oil.Prelude.Int.{pos, ℤ, ◌-ℤ◌}
use balt_oil.Prelude.{
  Bool, List, Option, [], false, if◌then◌else◌, is_some, leb, none, not, some, true, ℕ, ◌&&◌, ◌∷◌,
  ◌*◌, ◌==◌,
}

pub data ClientType : Type 0 where
  individual_client company_client : ClientType

-- The answer of auth_service, but for the credit limit.
pub record ClientContext : Type 0 where
  pub client_type : ClientType
  pub credit_allowed : Bool
  pub tariff_id : Option ℕ
  pub fuel_coefficient : ℕ
  pub delivery_coefficient : ℕ
  pub chats_only : Bool

pub record VolumeTier : Type 0 where
  pub min_volume : ℕ
  pub discount_pct : ℕ

pub record Tariff : Type 0 where
  pub is_default : Bool
  pub base_delivery_cost : ℕ
  pub client_type : Option ClientType
  pub base_tariff_id : Option ℕ
  pub formula_type : Option FormulaType
  pub formula_value : Option ℤ
  pub formula_round_to : Option ℕ
  pub is_archived : Bool
  pub fuel_prices : List PriceRow
  pub volume_tiers : List VolumeTier

unfoldable pub get_tariff : ℕ → Table Tariff → Option Tariff
get_tariff k tariffs = elim (lookup k tariffs) [
  | none ↦ none
  | some t ↦ if t.is_archived then none else some t
]

abbrev pub is_live_default : Tariff → Bool
is_live_default t = t.is_default && not t.is_archived

abbrev pub same_type : ClientType → Option ClientType → Bool
same_type individual_client (some individual_client) = true
same_type company_client (some company_client) = true
same_type _ _ = false

abbrev pub rows_where : (Tariff → Bool) → Table Tariff → List Tariff
rows_where p [] = []
rows_where p ((k, t) ∷ ts) = if p t then t ∷ rows_where p ts else rows_where p ts

-- `scalar_one_or_none`: more than one row is an exception.
abbrev pub one_or_none : List Tariff → Result (Option Tariff)
one_or_none [] = ok none
one_or_none (t ∷ []) = ok (some t)
one_or_none (t ∷ u ∷ ts) = err internal_error

abbrev pub first_of : List Tariff → Option Tariff
first_of [] = none
first_of (t ∷ ts) = some t

unfoldable pub get_default_tariff : Option ClientType → Table Tariff → Result (Option Tariff)
get_default_tariff none tariffs = ok (first_of (rows_where is_live_default tariffs))
get_default_tariff (some kind) tariffs = do
  exact ← one_or_none (rows_where (λ t. is_live_default t && same_type kind t.client_type) tariffs)
  if is_some exact then ok exact else do
    generic ←
        one_or_none (rows_where (λ t. is_live_default t && not (is_some t.client_type)) tariffs)
    if is_some generic then ok generic else ok (first_of (rows_where is_live_default tariffs))

abbrev pub tariff_for : Option ℕ → Option ClientType → Table Tariff → Result (Option Tariff)
tariff_for (some k) kind tariffs = ok (get_tariff k tariffs)
tariff_for none kind tariffs = get_default_tariff kind tariffs

unfoldable pub resolve_fuel_price : Tariff → ℕ → Table Tariff → Option ℤ
resolve_fuel_price tariff fuel tariffs = elim tariff.base_tariff_id [
  | none ↦ visible_price fuel tariff.fuel_prices
  | some k ↦ elim (get_tariff k tariffs) [
    | none ↦ none
    | some base ↦ visible_price fuel (
        derive_price_rows base.fuel_prices tariff.fuel_prices tariff.formula_type
          tariff.formula_value tariff.formula_round_to)
  ]
]

-- `sorted(tiers, key=min_volume, reverse=True)`, which keeps the order of equal keys.
abbrev pub insert_tier : VolumeTier → List VolumeTier → List VolumeTier
insert_tier t [] = t ∷ []
insert_tier t (u ∷ us) = if leb u.min_volume t.min_volume then t ∷ u ∷ us else u ∷ insert_tier t us

abbrev pub sort_tiers : List VolumeTier → List VolumeTier
sort_tiers [] = []
sort_tiers (t ∷ ts) = insert_tier t (sort_tiers ts)

abbrev pub first_tier : ℕ → List VolumeTier → ℕ
first_tier volume [] = 0
first_tier volume (t ∷ ts) =
    if leb t.min_volume volume then t.discount_pct else first_tier volume ts

unfoldable pub discount_for : ℕ → List VolumeTier → ℕ
discount_for volume tiers = first_tier volume (sort_tiers tiers)

-- `price * (1 - discount_pct / 100) * fc`, in units of 10 ^ -11 rouble.
abbrev pub effective_price : ℤ → ℕ → ℕ → ℤ
effective_price price discount_pct fuel_coefficient =
    scale (times price (pos 10_000 -ℤ pos discount_pct)) fuel_coefficient

abbrev pub fuel_cost : ℤ → ℕ → ℕ → ℕ → ℤ
fuel_cost price discount_pct fuel_coefficient volume =
    half_up (scale (effective_price price discount_pct fuel_coefficient) volume) 100_000_000_000

unfoldable pub compute_expected_amount :
    ℕ → ℕ → Option ℕ → Option ClientType → ℕ → Table Tariff → Result (Option ℤ)
compute_expected_amount fuel volume tariff_id kind fuel_coefficient tariffs = do
  found ← tariff_for tariff_id kind tariffs
  ok (elim found [
    | none ↦ none
    | some tariff ↦ elim (resolve_fuel_price tariff fuel tariffs) [
      | none ↦ none
      | some price ↦
          some (fuel_cost price (discount_for volume tariff.volume_tiers) fuel_coefficient volume)
    ]
  ])

-- The answer of `compute_price_breakdown`; `effective_price_per_liter` is in kopecks.
pub record PriceBreakdown : Type 0 where
  pub tariff_found : Bool
  pub price_per_liter : Option ℤ
  pub discount_pct : ℕ
  pub effective_price_per_liter : Option ℤ
  pub fuel_subtotal : Option ℤ
  pub base_delivery_cost : Option ℕ

-- `Decimal(...) if tariff.base_delivery_cost else None`
abbrev pub delivery_rate : Tariff → Option ℕ
delivery_rate t = if t.base_delivery_cost == 0 then none else some t.base_delivery_cost

abbrev pub no_price : Option ℕ → PriceBreakdown
no_price rate = record {
  tariff_found = false;
  price_per_liter = none;
  discount_pct = 0;
  effective_price_per_liter = none;
  fuel_subtotal = none;
  base_delivery_cost = rate;
}

unfoldable pub compute_price_breakdown :
    ℕ → ℕ → Option ℕ → Option ClientType → ℕ → Table Tariff → Result PriceBreakdown
compute_price_breakdown fuel volume tariff_id kind fuel_coefficient tariffs = do
  found ← tariff_for tariff_id kind tariffs
  ok (elim found [
    | none ↦ no_price none
    | some tariff ↦ elim (resolve_fuel_price tariff fuel tariffs) [
      | none ↦ no_price (delivery_rate tariff)
      | some price ↦
          let discount_pct = discount_for volume tariff.volume_tiers in
          record {
            tariff_found = true;
            price_per_liter = some price;
            discount_pct = discount_pct;
            effective_price_per_liter =
                some (half_up (effective_price price discount_pct fuel_coefficient) 1_000_000_000);
            fuel_subtotal = some (fuel_cost price discount_pct fuel_coefficient volume);
            base_delivery_cost = delivery_rate tariff;
          }
    ]
  ])

-- The answer of the zones in delivery_service, but for the name and the identifier.
pub record ZoneInfo : Type 0 where
  pub cost_coefficient : ℕ
  pub delivery_price : Option ℕ

-- Kopecks per litre, times hundredths of a litre and two coefficients in thousandths.
unfoldable pub compute_delivery_cost : Option ℕ → ℕ → ℕ → ℕ → Option ℤ
compute_delivery_cost none volume zone_coef delivery_coefficient = none
compute_delivery_cost (some rate) volume zone_coef delivery_coefficient =
    if rate == 0
    then none
    else some (half_up (pos (rate * volume * zone_coef * delivery_coefficient)) 100_000_000)

-- With the surcharge LEGAL_DELIVERY_VAT of 1.22 for a company.
abbrev pub with_vat : ClientType → Fraction → ℤ
with_vat individual_client f = quantize f
with_vat company_client f = half_up (scale f.num 122) (100 * f.den)

unfoldable pub compute_zone_delivery_cost : ZoneInfo → Option ℕ → ℕ → ℕ → ClientType → Option ℤ
compute_zone_delivery_cost zone rate volume delivery_coefficient kind = elim zone.delivery_price [
  | some price ↦
      some (with_vat kind (record { num = pos (price * delivery_coefficient); den = 1000 }))
  | none ↦ elim (compute_delivery_cost rate volume zone.cost_coefficient delivery_coefficient) [
    | none ↦ none
    | some cost ↦ some (with_vat kind (whole cost))
  ]
]

-- `_RULES`: may an individual have it, is it for the employees only, does it need a credit?
abbrev pub rules : PaymentType → Bool × Bool × Bool
rules prepaid = (true, false, false)
rules on_delivery = (true, false, false)
rules postpaid = (false, true, false)
rules trade_credit = (false, false, false)
rules debt = (true, false, true)

abbrev pub is_individual_client : ClientType → Bool
is_individual_client individual_client = true
is_individual_client company_client = false

unfoldable pub validate_payment_type : PaymentType → Role → ClientType → Bool → Result (Unit {0})
validate_payment_type kind role client_type credit_allowed =
    let (for_individuals, staff_only, requires_credit) = rules kind in
    do
      raise_if (staff_only && is_client role) validation
      raise_if (is_individual_client client_type && not for_individuals) validation
      raise_if (requires_credit && not credit_allowed) validation
