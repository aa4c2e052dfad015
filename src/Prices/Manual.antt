-- ===== src/Prices/Manual.antt =====
-- The price of a manager: the total of the order against the lines of its invoice.
use balt_oil.Orders.Amounts.{manual_fuel_subtotal}
use balt_oil.Prices.Money.{fuel_gross, manual_price_lines, order_total, raw_total}
use balt_oil.Prices.Rounding.{half_even-half_up, half_up, half_up_one, scale, scale_one, whole}
use balt_oil.Prelude.Int.{abs, int_laws, pos, ℤ, ◌+ℤ◌, ◌-ℤ◌}
use balt_oil.Prelude.{
  Option, ap, arith, false, is_some, or_default, refl, some, sym, true, ℕ, ◌%◌, ◌*◌, ◌==◌, ◌∙◌, ◌≡◌,
  ◌≢◌, ◌≤◌,
}

raw_total-whole :
    (fuel : ℤ) (delivery_cost : Option ℤ)
    → raw_total (whole fuel) delivery_cost ≡ fuel +ℤ or_default delivery_cost (pos 0)
raw_total-whole fuel delivery_cost =
    half_up_one (fuel +ℤ scale (or_default delivery_cost (pos 0)) 1)
    ∙ ap (λ d. fuel +ℤ d) (scale_one (or_default delivery_cost (pos 0)))

fuel_gross-subtotal :
    (price volume : ℕ)
    → 2 * (price * volume % 10_000) ≢ 10_000
    → fuel_gross price volume ≡ manual_fuel_subtotal price volume
unfolding half_up manual_fuel_subtotal
fuel_gross-subtotal price volume no_half =
    ap pos (sym (half_even-half_up (price * volume) 10_000 (omega arith) no_half))

agrees : (a b : ℤ) → a ≡ b → (abs (a -ℤ b) == 0) ≡ true
agrees a b same = grind int_laws

-- The total of an order with a manager's price can be split into the lines of an invoice, unless
-- the fuel costs exactly half a kopeck over an even number of kopecks: the order rounds such a half
-- to the even kopeck and the invoice up.
pub manual_price_lines-exact :
    (price volume vat_rate : ℕ) (delivery_cost : Option ℤ)
    → 1 ≤ volume
    → 2 * (price * volume % 10_000) ≢ 10_000
    → is_some (
        manual_price_lines
          (some price)
          (some volume)
          delivery_cost
          (order_total
            (some (whole (manual_fuel_subtotal price volume)))
            delivery_cost
            (some volume)
            vat_rate
            true)
          vat_rate)
      ≡ true
unfolding manual_price_lines order_total
manual_price_lines-exact price volume vat_rate delivery_cost some_ no_half =
    let fuel = manual_fuel_subtotal price volume in
    let delivery = or_default delivery_cost (pos 0) in
    let same : fuel_gross price volume +ℤ delivery ≡ raw_total (whole fuel) delivery_cost =
      rw (fuel_gross-subtotal price volume no_half, raw_total-whole fuel delivery_cost) refl in
    let fits =
      agrees (fuel_gross price volume +ℤ delivery) (raw_total (whole fuel) delivery_cost) same in
    let any_ : (volume == 0) ≡ false = ground arith in rw (any_, fits) refl
