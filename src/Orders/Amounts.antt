-- ===== src/Orders/Amounts.antt =====
-- The amounts of an order: `_manual_fuel_subtotal`, `_fuel_subtotal_for`,
-- `_recompute_expected_amount` and the final amount of `transition_status`.
use balt_oil.Orders.Defs.{Replies, is_transport}
use balt_oil.Prices.Tariffs.{
  ClientContext, Tariff, compute_expected_amount, compute_zone_delivery_cost, tariff_for,
}
use balt_oil.Payments.Defs.{Order}
use balt_oil.Service.{Result, err, ok, ◌>>=◌}
use balt_oil.Prelude.Int.{pos, ℤ, ◌-ℤ◌}
use balt_oil.Prelude.{Option, if◌then◌else◌, is_some, none, or_default, some, ℕ, ◌&&◌, ◌*◌, ◌==◌}
use balt_oil.Prices.Money.{order_total}
use balt_oil.Prices.Rounding.{Fraction, half_even, scale, whole}

-- `(price * volume).quantize(0.01)`
unfoldable pub manual_fuel_subtotal : ℕ → ℕ → ℤ
manual_fuel_subtotal price volume = pos (half_even (price * volume) 10_000)

abbrev pub expected_amount_for : Replies → ClientContext → ℕ → ℕ → Result (Option ℤ)
expected_amount_for r ctx fuel volume =
    compute_expected_amount fuel volume ctx.tariff_id (some ctx.client_type) ctx.fuel_coefficient
      r.tariffs

unfoldable pub fuel_subtotal_for : Replies → ClientContext → Order → ℕ → Result (Option ℤ)
fuel_subtotal_for r ctx o volume = elim o.manual_price_per_liter [
  | some price ↦ ok (some (manual_fuel_subtotal price volume))
  | none ↦ expected_amount_for r ctx o.fuel_type volume
]

abbrev pub as_fraction : Option ℤ → Option Fraction
as_fraction none = none
as_fraction (some a) = some (whole a)

abbrev pub rate_of : Option Tariff → Option ℕ
rate_of none = none
rate_of (some t) = some t.base_delivery_cost

-- The cost of a delivery to a point, if its zone is found and has a price.
abbrev pub zone_cost : Replies → ClientContext → ℕ → Option ℤ → Option ℤ → Result (Option ℤ)
zone_cost r ctx volume (some lat) (some lon) = elim (r.resolve_zone lat lon) [
  | none ↦ ok none
  | some zone ↦ do
    rate ←
        if is_some zone.delivery_price
        then ok none
        else (tariff_for ctx.tariff_id (some ctx.client_type) r.tariffs >>= λ (t : Option Tariff).
            ok (rate_of t))
    ok (compute_zone_delivery_cost zone rate volume ctx.delivery_coefficient ctx.client_type)
]
zone_cost r ctx volume _ _ = ok none

abbrev pub or_else : Option ℤ → Option ℤ → Option ℤ
or_else none old = old
or_else (some a) old = some a

abbrev pub total_of : Replies → Order → Option Fraction → ℕ → Option ℤ
total_of r o fuel volume =
    order_total fuel o.delivery_cost (some volume) r.vat_rate (is_some o.manual_price_per_liter)

unfoldable pub recounted : Replies → Order → Result Order
recounted r o = do
  ctx ← r.client_context o.client_id o.organization_id
  expected ← fuel_subtotal_for r ctx o o.volume_requested
  zone ←
      if o.delivery_cost_is_manual
      then ok none
      else zone_cost r ctx o.volume_requested o.delivery_lat o.delivery_lon
  let o' = record o { delivery_cost = or_else zone o.delivery_cost }
  ok (record o' { expected_amount = total_of r o' (as_fraction expected) o.volume_requested })

abbrev pub unless_raised : Order → Result Order → Order
unless_raised o (err e) = o
unless_raised o (ok done) = done

-- `_recompute_expected_amount`: an exception leaves the order as it is.
unfoldable pub recompute_expected_amount : Replies → Order → Order
recompute_expected_amount r o = unless_raised o (recounted r o)

-- The amount for another volume by the terms of the order.
abbrev pub by_the_terms : ℤ → Option ℤ → ℕ → ℕ → Fraction
by_the_terms expected delivery_cost delivered_volume volume_requested = record {
  num = scale (expected -ℤ or_default delivery_cost (pos 0)) delivered_volume;
  den = volume_requested;
}

abbrev pub by_the_tariff : Replies → Order → ℕ → Result (Option Fraction)
by_the_tariff r o volume = do
  ctx ← r.client_context o.client_id o.organization_id
  amount ← expected_amount_for r ctx o.fuel_type volume
  ok (as_fraction amount)

-- The fuel of the volume that was delivered: by the terms of the order, else by the tariff.
abbrev pub delivered_fuel : Replies → Order → ℕ → Option ℤ → Result (Option Fraction)
delivered_fuel r o volume (some expected) =
    if o.volume_requested == 0
    then by_the_tariff r o volume
    else ok (some (by_the_terms expected o.delivery_cost volume o.volume_requested))
delivered_fuel r o volume none = by_the_tariff r o volume

unfoldable pub final_amount_for : Replies → Order → ℕ → Result (Option ℤ)
final_amount_for r o volume =
    if is_transport o.order_kind
    then ok o.final_amount
    else if is_some o.expected_amount && volume == o.volume_requested
    then ok o.expected_amount
    else do
      fuel ← delivered_fuel r o volume o.expected_amount
      ok (if is_some fuel then total_of r o fuel volume else o.final_amount)
