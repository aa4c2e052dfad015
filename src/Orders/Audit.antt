-- ===== src/Orders/Audit.antt =====
-- app/services/order_audit.py and `_audit_diff`: the journal of the fields that changed.
use balt_oil.Payments.Defs.{
  AuditedField, Order, OrderAuditLog, PaymentType, debt, f_allow_delivery_unpaid, f_client_comment,
  f_client_id, f_contact_person_name, f_contact_person_phone, f_delivery_address, f_delivery_cost,
  f_desired_date, f_driver_id, f_expected_amount, f_final_amount, f_fuel_type, f_manager_comment,
  f_organization_id, f_payment_type, f_trade_credit_contract_signed, f_volume_delivered,
  f_volume_requested, field_changed, on_delivery, postpaid, prepaid, trade_credit,
}
use balt_oil.Text.{Text, strip, ◌=text◌}
use balt_oil.Service.{TokenUser}
use balt_oil.Prelude.Int.{neg_part, pos_part, ℤ}
use balt_oil.Prelude.{
  Bool, List, Option, [], false, if◌then◌else◌, keep, map, none, not, some, true, ℕ, ◌/◌, ◌∷◌,
}

-- A day in microseconds.
abbrev pub day : ℕ
day = 86_400_000_000

-- `order_audit.stringify` of a field, as code points or as the parts of a number: what the journal
-- compares. A time shows as its day.
abbrev pub shown_text : Option Text → Option (List ℕ)
shown_text none = none
shown_text (some text) = elim (strip text) [ [] ↦ none | c ∷ cs ↦ some (c ∷ cs) ]

abbrev pub shown_id : Option ℕ → Option (List ℕ)
shown_id none = none
shown_id (some n) = some (n ∷ [])

abbrev pub shown_amount : Option ℤ → Option (List ℕ)
shown_amount none = none
shown_amount (some a) = some (pos_part a ∷ neg_part a ∷ [])

abbrev pub shown_flag : Bool → Option (List ℕ)
shown_flag flag = some ((if flag then 1 else 0) ∷ [])

abbrev pub shown_day : Option ℕ → Option (List ℕ)
shown_day none = none
shown_day (some moment) = some (moment / day ∷ [])

abbrev pub shown_payment : PaymentType → Option (List ℕ)
shown_payment prepaid = some (0 ∷ [])
shown_payment on_delivery = some (1 ∷ [])
shown_payment trade_credit = some (2 ∷ [])
shown_payment postpaid = some (3 ∷ [])
shown_payment debt = some (4 ∷ [])

unfoldable pub shown : AuditedField → Order → Option (List ℕ)
shown f_fuel_type o = some (o.fuel_type ∷ [])
shown f_volume_requested o = some (o.volume_requested ∷ [])
shown f_volume_delivered o = shown_id o.volume_delivered
shown f_delivery_address o = shown_text (some o.delivery_address)
shown f_desired_date o = shown_day o.desired_date
shown f_contact_person_name o = shown_text o.contact_person_name
shown f_contact_person_phone o = shown_text o.contact_person_phone
shown f_client_comment o = shown_text o.client_comment
shown f_manager_comment o = shown_text o.manager_comment
shown f_driver_id o = shown_id o.driver_id
shown f_expected_amount o = shown_amount o.expected_amount
shown f_final_amount o = shown_amount o.final_amount
shown f_delivery_cost o = shown_amount o.delivery_cost
shown f_payment_type o = shown_payment o.payment_type
shown f_organization_id o = shown_id o.organization_id
shown f_client_id o = some (o.client_id ∷ [])
shown f_allow_delivery_unpaid o = shown_flag o.allow_delivery_unpaid
shown f_trade_credit_contract_signed o = shown_flag o.trade_credit_contract_signed

abbrev pub same_shown : Option (List ℕ) → Option (List ℕ) → Bool
same_shown none none = true
same_shown none (some t) = false
same_shown (some s) none = false
same_shown (some s) (some t) = s =text t

abbrev pub audited_fields : List AuditedField
audited_fields =
    f_fuel_type ∷ f_volume_requested ∷ f_volume_delivered ∷ f_delivery_address ∷ f_desired_date
    ∷ f_contact_person_name ∷ f_contact_person_phone ∷ f_client_comment ∷ f_manager_comment
    ∷ f_driver_id ∷ f_expected_amount ∷ f_final_amount ∷ f_delivery_cost ∷ f_payment_type
    ∷ f_organization_id ∷ f_client_id ∷ f_allow_delivery_unpaid ∷ f_trade_credit_contract_signed
    ∷ []

abbrev pub has_changed : Order → Order → AuditedField → Bool
has_changed before after field = not (same_shown (shown field after) (shown field before))

-- `_audit_diff`: an entry for each field that shows another value.
unfoldable pub audit_diff : ℕ → TokenUser → Order → Order → List OrderAuditLog
audit_diff k actor before after =
    map (λ field. record { order_id = k; actor_id = actor.id; action = field_changed field })
      (keep (has_changed before after) audited_fields)
