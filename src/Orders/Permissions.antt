-- ===== src/Orders/Permissions.antt =====
-- The matrix of the rights to edit: `_check_edit_permissions` and `_check_closed_order_edit`.
use balt_oil.Payments.Defs.{Order, OrderStatus, is_finished}
use balt_oil.Service.{
  Result, Role, TokenUser, forbidden, is_admin, is_client, is_driver, is_staff, raise_if,
  validation, ◌>>◌,
}
use balt_oil.Prelude.{Bool, List, any, false, if◌then◌else◌, not, same_id, true, ◌&&◌, ◌==◌}

-- The fields of OrderUpdateRequest.
pub data EditField : Type 0 where
  e_manager_comment e_desired_date e_driver_id e_expected_amount : EditField
  e_final_amount e_trade_credit_contract_signed e_delivery_address e_fuel_type : EditField
  e_volume_requested e_payment_type e_client_comment e_contact_person_name : EditField
  e_contact_person_phone e_delivery_cost e_allow_delivery_unpaid e_organization_id : EditField

-- `_CLIENT_EDITABLE`
abbrev pub is_client_editable : EditField → Bool
is_client_editable e_fuel_type = true
is_client_editable e_volume_requested = true
is_client_editable e_delivery_address = true
is_client_editable e_desired_date = true
is_client_editable e_client_comment = true
is_client_editable e_contact_person_name = true
is_client_editable e_contact_person_phone = true
is_client_editable e_organization_id = true
is_client_editable _ = false

-- `_DRIVER_EDITABLE`
abbrev pub is_driver_editable : EditField → Bool
is_driver_editable e_fuel_type = true
is_driver_editable e_volume_requested = true
is_driver_editable e_delivery_address = true
is_driver_editable e_desired_date = true
is_driver_editable e_contact_person_name = true
is_driver_editable e_contact_person_phone = true
is_driver_editable e_client_comment = true
is_driver_editable e_manager_comment = true
is_driver_editable _ = false

-- `_FROZEN_IN_CLOSED`
abbrev pub is_frozen : EditField → Bool
is_frozen e_fuel_type = true
is_frozen e_volume_requested = true
is_frozen _ = false

-- `_MANAGER_CLOSED_EDITABLE`
abbrev pub is_manager_editable : EditField → Bool
is_manager_editable e_organization_id = true
is_manager_editable _ = false

-- `set <= allowed`
abbrev pub all_in : (EditField → Bool) → List EditField → Bool
all_in p fields = not (any (λ f. not (p f)) fields)

unfoldable pub check_closed_order_edit : OrderStatus → Role → List EditField → Result (Unit {0})
check_closed_order_edit status role fields = do
  raise_if (is_finished status && not (is_admin role) && not (all_in is_manager_editable fields))
      forbidden
  raise_if (is_finished status && any is_frozen fields) validation

unfoldable pub check_edit_permissions : Order → TokenUser → List EditField → Result (Unit {0})
check_edit_permissions o actor fields =
    if is_staff actor.role then check_closed_order_edit o.status actor.role fields else do
      raise_if (not (is_client actor.role) && not (is_driver actor.role)) forbidden
      raise_if (is_client actor.role && not (o.client_id == actor.id)) forbidden
      raise_if (is_client actor.role && not (all_in is_client_editable fields)) forbidden
      raise_if (is_driver actor.role && not (same_id o.driver_id actor.id)) forbidden
      raise_if (is_driver actor.role && not (all_in is_driver_editable fields)) forbidden
      raise_if (is_finished o.status) validation
