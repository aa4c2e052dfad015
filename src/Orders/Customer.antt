-- ===== src/Orders/Customer.antt =====
-- The request of `update_order`, and the change of the customer in it.
use balt_oil.Prelude.{
  Bool, List, Option, [], any, false, if◌then◌else◌, is_some, none, not, or_default, same_option,
  some, true, ℕ, ◌++◌, ◌==◌, ◌∷◌,
}
use balt_oil.Orders.Permissions.{
  EditField, e_allow_delivery_unpaid, e_client_comment, e_contact_person_name,
  e_contact_person_phone, e_delivery_address, e_delivery_cost, e_desired_date, e_driver_id,
  e_expected_amount, e_final_amount, e_fuel_type, e_manager_comment, e_organization_id,
  e_payment_type, e_trade_credit_contract_signed, e_volume_requested,
}
use balt_oil.Orders.Defs.{Replies}
use balt_oil.Prices.Tariffs.{is_individual_client}
use balt_oil.Payments.Defs.{Order, OrderKind, PaymentType, company, individual, on_delivery}
use balt_oil.Text.{Text}
use balt_oil.Service.{Result, TokenUser, err, is_staff, ok, validation, ◌>>=◌}
use balt_oil.Prelude.Int.{ℤ}

-- A field that is not sent is `none`; `organization_id` may be sent as null.
pub record UpdateRequest : Type 0 where
  pub manager_comment : Option Text
  pub desired_date : Option ℕ
  pub driver_id : Option ℕ
  pub expected_amount : Option ℤ
  pub final_amount : Option ℤ
  pub trade_credit_contract_signed : Option Bool
  pub delivery_address : Option Text
  pub fuel_type : Option ℕ
  pub volume_requested : Option ℕ
  pub payment_type : Option PaymentType
  pub client_comment : Option Text
  pub contact_person_name : Option Text
  pub contact_person_phone : Option Text
  pub delivery_cost : Option ℤ
  pub allow_delivery_unpaid : Option Bool
  pub organization_id : Option (Option ℕ)

abbrev pub sent {ℓ ℓ'} : {A : Type ℓ} {B : Type ℓ'} → B → Option A → List B
sent field none = []
sent field (some value) = field ∷ []

abbrev pub other_fields : UpdateRequest → List EditField
other_fields u =
    sent e_manager_comment u.manager_comment
    ++ sent e_desired_date u.desired_date
    ++ sent e_driver_id u.driver_id
    ++ sent e_expected_amount u.expected_amount
    ++ sent e_final_amount u.final_amount
    ++ sent e_trade_credit_contract_signed u.trade_credit_contract_signed
    ++ sent e_delivery_address u.delivery_address
    ++ sent e_payment_type u.payment_type
    ++ sent e_client_comment u.client_comment
    ++ sent e_contact_person_name u.contact_person_name
    ++ sent e_contact_person_phone u.contact_person_phone
    ++ sent e_delivery_cost u.delivery_cost
    ++ sent e_allow_delivery_unpaid u.allow_delivery_unpaid
    ++ sent e_organization_id u.organization_id

-- The set of the fields that are sent.
unfoldable pub requested_fields : UpdateRequest → List EditField
requested_fields u =
    sent e_fuel_type u.fuel_type ++ (sent e_volume_requested u.volume_requested ++ other_fields u)

-- Another organization, or none, than the order has.
abbrev pub new_organization : UpdateRequest → Order → Option (Option ℕ)
new_organization u o = elim u.organization_id [
  | none ↦ none
  | some target ↦ if same_option target o.organization_id then none else some target
]

-- `_client_for_org_switch`: the new client, if the order changes hands.
unfoldable pub client_for_org_switch : Replies → ℕ → ℕ → Result (Option ℕ)
client_for_org_switch r client_id org_id = elim (r.organization_target org_id) [
  | none ↦ err validation
  | some target ↦
      if any (λ member. member == client_id) target.0
      then ok none
      else if is_some target.1
      then ok target.1
      else elim (r.client_context client_id (some org_id)) [
        | err e ↦ err validation
        | ok ctx ↦ ok none
      ]
]

abbrev pub new_client : Replies → TokenUser → Order → Option (Option ℕ) → Result (Option ℕ)
new_client r actor o (some (some org_id)) =
    if is_staff actor.role
    then client_for_org_switch r o.client_id org_id
    else if any (λ member. member == org_id) (r.organization_ids o.client_id)
    then ok none
    else err validation
new_client r actor o _ = ok none

abbrev pub is_priced_by_client : OrderKind → Bool
is_priced_by_client individual = true
is_priced_by_client company = true
is_priced_by_client _ = false

-- The order under its new customer: the kind follows the type of the client.
abbrev pub switch_customer : Replies → Option ℕ → Option (Option ℕ) → Order → Result Order
switch_customer r owner none o = ok o
switch_customer r owner (some target) o =
    let moved = record o { organization_id = target; client_id = or_default owner o.client_id } in
    if not (is_priced_by_client o.order_kind) then ok moved else do
      ctx ← r.client_context moved.client_id target
      ok (
          if is_individual_client ctx.client_type
          then record moved { order_kind = individual; payment_type = on_delivery }
          else record moved { order_kind = company })
