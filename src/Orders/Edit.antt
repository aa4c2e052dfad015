-- ===== src/Orders/Edit.antt =====
-- `update_order`, without the invoice that it issues anew.
use balt_oil.Orders.Customer.{
  UpdateRequest, new_client, new_organization, requested_fields, sent, switch_customer,
}
use balt_oil.Orders.Create.{is_past, min_volume_l}
use balt_oil.Orders.Permissions.{check_edit_permissions}
use balt_oil.Orders.Amounts.{as_fraction, fuel_subtotal_for, recompute_expected_amount, total_of}
use balt_oil.Orders.Access.{get_order}
use balt_oil.Orders.Audit.{audit_diff}
use balt_oil.Orders.Defs.{Replies, is_accepted, note, with_ack}
use balt_oil.Prices.Tariffs.{ClientContext}
use balt_oil.Payments.Ops.{get_paid_total, recomputed}
use balt_oil.Payments.Defs.{
  Books, ChangedKey, Order, key_address, key_amount, key_comment, key_desired_date, key_driver,
  key_fuel_type, key_organization, key_volume,
}
use balt_oil.Text.{Text, strip, ◌=text◌}
use balt_oil.Table.{put}
use balt_oil.Service.{
  Result, TokenUser, err, is_driver, is_staff, ok, raise_if, validation, ◌>>=◌, ◌>>◌,
}
use balt_oil.Prelude.Int.{abs, pos, ℤ, ◌-ℤ◌}
use balt_oil.Prelude.{
  Bool, List, Option, [], false, if◌then◌else◌, is_some, ltb, none, not, or_default, some, true, ℕ,
  ◌&&◌, ◌++◌, ◌==◌, ◌||◌, ◌∷◌,
}

-- `_reset_comment_ack`
abbrev pub comment_ack : TokenUser → Option Text → Option Text → Option ℕ → Option ℕ
comment_ack actor old none ack = ack
comment_ack actor old (some []) ack = ack
comment_ack actor old (some (c ∷ cs)) ack =
    if is_driver actor.role || strip (c ∷ cs) =text strip (or_default old []) then ack else none

abbrev pub given {ℓ} : {A : Type ℓ} → Option A → Option A → Option A
given none old = old
given (some value) old = some value

-- The fields that are only replaced.
unfoldable pub replace_fields : TokenUser → UpdateRequest → Order → Order
replace_fields actor u o = record o {
  manager_comment = given u.manager_comment o.manager_comment;
  desired_date = given u.desired_date o.desired_date;
  driver_id = given u.driver_id o.driver_id;
  expected_amount = given u.expected_amount o.expected_amount;
  manual_price_per_liter = if is_some u.expected_amount then none else o.manual_price_per_liter;
  trade_credit_contract_signed =
      or_default u.trade_credit_contract_signed o.trade_credit_contract_signed;
  delivery_address = or_default u.delivery_address o.delivery_address;
  fuel_type = or_default u.fuel_type o.fuel_type;
  volume_requested = or_default u.volume_requested o.volume_requested;
  payment_type = or_default u.payment_type o.payment_type;
  client_comment = given u.client_comment o.client_comment;
  contact_person_name = given u.contact_person_name o.contact_person_name;
  contact_person_phone = given u.contact_person_phone o.contact_person_phone;
  driver_comment_ack_at =
      comment_ack actor o.client_comment u.client_comment
        (comment_ack actor o.manager_comment u.manager_comment o.driver_comment_ack_at);
}

abbrev pub minus_delivery : Option ℤ → ℤ → Option ℤ
minus_delivery none delivery = none
minus_delivery (some amount) delivery = some (amount -ℤ delivery)

-- The fuel by the tariff; a failure leaves it out.
abbrev pub fuel_again : Replies → Order → Option ℤ
fuel_again r o =
    elim (r.client_context o.client_id o.organization_id >>= λ (ctx : ClientContext).
    fuel_subtotal_for r ctx o o.volume_requested) [ err e ↦ none | ok amount ↦ amount ]

-- `float(order.volume_delivered or 0) or volume_requested`
abbrev pub billed_volume : Order → ℕ
billed_volume o = elim o.volume_delivered [
  | none ↦ o.volume_requested
  | some volume ↦ if volume == 0 then o.volume_requested else volume
]

-- A delivery cost that is typed in: its part of the amounts is replaced.
unfoldable pub charge_delivery : Replies → UpdateRequest → Order → Order
charge_delivery r u o = elim u.delivery_cost [
  | none ↦ o
  | some cost ↦
      let old = or_default o.delivery_cost (pos 0) in
      let fuel_expected =
        if is_some o.expected_amount
        then minus_delivery o.expected_amount old
        else fuel_again r o in
      let fuel_final = minus_delivery o.final_amount old in
      let o' = record o { delivery_cost = some cost; delivery_cost_is_manual = true } in
      record o' {
        expected_amount =
            if is_some u.expected_amount || not (is_some fuel_expected)
            then o.expected_amount
            else total_of r o' (as_fraction fuel_expected) o.volume_requested;
        final_amount =
            if is_some u.final_amount || not (is_some fuel_final)
            then o.final_amount
            else total_of r o' (as_fraction fuel_final) (billed_volume o);
      }
]

abbrev pub is_recounted : UpdateRequest → Order → Bool
is_recounted u o =
    (is_some u.fuel_type || is_some u.volume_requested || is_some (new_organization u o))
    && not (is_some u.expected_amount)

abbrev pub recount : Replies → UpdateRequest → Order → Order → Order
recount r u before o = if is_recounted u before then recompute_expected_amount r o else o

-- Does the final amount move, so that the payment status is counted again?
abbrev pub is_settled_again : UpdateRequest → Order → Bool
is_settled_again u o = is_some u.final_amount || (is_some u.delivery_cost && is_some o.final_amount)

abbrev pub settle_again : ℤ → UpdateRequest → Order → Order → Order
settle_again paid_total u before o =
    if is_settled_again u before
    then recomputed paid_total (record o { final_amount = given u.final_amount o.final_amount })
    else o

abbrev pub same_amount : Option ℤ → Option ℤ → Bool
same_amount none none = true
same_amount (some a) (some b) = abs (a -ℤ b) == 0
same_amount _ _ = false

-- The keys that the driver is shown; `amount_moved` tells that a recount
-- changed the expected amount.
unfoldable pub changed_keys : UpdateRequest → Order → Bool → List ChangedKey
changed_keys u o amount_moved =
    sent key_comment u.manager_comment
    ++ sent key_desired_date u.desired_date
    ++ sent key_driver u.driver_id
    ++ sent key_amount u.expected_amount
    ++ sent key_address u.delivery_address
    ++ sent key_fuel_type u.fuel_type
    ++ sent key_volume u.volume_requested
    ++ sent key_comment u.client_comment
    ++ sent key_organization (new_organization u o)
    ++ sent key_amount u.delivery_cost
    ++ (if amount_moved then key_amount ∷ [] else [])
    ++ sent key_amount u.final_amount

-- Is there anything to record?
abbrev pub is_changed : UpdateRequest → Order → Bool
is_changed u o =
    is_some u.manager_comment
    || is_some u.desired_date
    || is_some u.driver_id
    || is_some u.expected_amount
    || is_some u.final_amount
    || is_some u.trade_credit_contract_signed
    || is_some u.delivery_address
    || is_some u.fuel_type
    || is_some u.volume_requested
    || is_some u.payment_type
    || is_some u.client_comment
    || is_some u.contact_person_name
    || is_some u.contact_person_phone
    || is_some u.delivery_cost
    || is_some u.allow_delivery_unpaid
    || is_some (new_organization u o)

abbrev pub below_min : Option ℕ → Bool
below_min none = false
below_min (some volume) = ltb volume min_volume_l

abbrev pub unknown_fuel : Replies → Option ℕ → Bool
unknown_fuel r none = false
unknown_fuel r (some fuel) = not (r.is_active_fuel fuel)

-- The checks of an edit before the customer is looked up.
unfoldable pub check_update : Replies → UpdateRequest → TokenUser → Order → Result (Unit {0})
check_update r u actor o = do
  check_edit_permissions o actor (requested_fields u)
  raise_if (not (is_staff actor.role) && below_min u.volume_requested) validation
  raise_if (unknown_fuel r u.fuel_type) validation
  raise_if (is_past r.now u.desired_date) validation

-- The order after the edit, before the confirmation of the driver is asked for.
unfoldable pub edited : Replies → ℤ → UpdateRequest → TokenUser → Order → Result (Order × Bool)
edited r paid_total u actor o = do
  owner ← new_client r actor o (new_organization u o)
  switched ← switch_customer r owner (new_organization u o) (replace_fields actor u o)
  let charged = charge_delivery r u switched
  let permitted = record charged {
    allow_delivery_unpaid = or_default u.allow_delivery_unpaid charged.allow_delivery_unpaid;
  }
  let counted = recount r u o permitted
  let moved = not (same_amount counted.expected_amount permitted.expected_amount)
  ok (settle_again paid_total u o counted, moved)

abbrev pub edit_logged : ℕ → TokenUser → Bool → Order → Order → Books → Books
edit_logged k actor false before o b = record b { orders = put k o b.orders }
edit_logged k actor true before o b = record b {
  orders = put k o b.orders;
  status_logs = b.status_logs ++ (note k actor o ∷ []);
  audit_logs = b.audit_logs ++ audit_diff k actor before o;
}

unfoldable pub update_order :
    Replies → ℕ → UpdateRequest → TokenUser → Books → Result (Books × Order)
update_order r k u actor b = do
  o ← get_order k actor b
  check_update r u actor o
  done ← edited r (get_paid_total k b.payments) u actor o
  let changed = is_changed u o
  let o' = with_ack (is_accepted o.status && changed) actor (changed_keys u o done.1) done.0
  ok (edit_logged k actor changed o o' b, o')
