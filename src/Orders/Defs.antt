-- ===== src/Orders/Defs.antt =====
-- What order_service learns from outside, and the requests of the orders with their tests.
use balt_oil.Prelude.{
  Bool, List, Option, false, some, true, ℕ, [], any, if◌then◌else◌, not, or_default, ◌&&◌, ◌++◌,
  ◌==◌, ◌∷◌,
}
use balt_oil.Prices.Tariffs.{ClientContext, Tariff, ZoneInfo}
use balt_oil.Payments.Defs.{
  Order, OrderKind, OrderStatus, OrderStatusLog, accepted, awaiting_manager, company, delivered,
  individual, new, transport, ttn_l, ChangedKey, key_address, key_amount, key_comment,
  key_desired_date, key_driver, key_fuel_type, key_volume, key_organization,
}
use balt_oil.Text.{Text}
use balt_oil.Table.{Table}
use balt_oil.Service.{Result, TokenUser, is_driver}
use balt_oil.Prelude.Int.{ℤ}

-- The answers of the other programs, with the tables of the tariffs and of the fuels, the VAT rate
-- of the seller, the clock, and the year of the clock in UTC.
pub record Replies : Type 0 where
  pub client_context : ℕ → Option ℕ → Result ClientContext
  pub organization_ids : ℕ → List ℕ
  pub organization_target : ℕ → Option (List ℕ × Option ℕ)
  pub resolve_zone : ℤ → ℤ → Option ZoneInfo
  pub is_active_fuel : ℕ → Bool
  pub starts_trip : ℕ → Order → Bool
  pub tariffs : Table Tariff
  pub vat_rate : ℕ
  pub now : ℕ
  pub year : ℕ

pub record TransitionRequest : Type 0 where
  pub to_status : OrderStatus
  pub ttn_number : Option Text
  pub volume_delivered : Option ℕ
  pub rejection_reason : Option Text

pub record RescheduleRequest : Type 0 where
  pub desired_date : Option ℕ
  pub driver_id : Option ℕ

pub data ShipmentMode : Type 0 where
  mode_allow mode_hold mode_auto : ShipmentMode

abbrev pub is_new : OrderStatus → Bool
is_new new = true
is_new _ = false

abbrev pub is_awaiting : OrderStatus → Bool
is_awaiting awaiting_manager = true
is_awaiting _ = false

abbrev pub is_accepted : OrderStatus → Bool
is_accepted accepted = true
is_accepted _ = false

abbrev pub is_ttn_l_kind : OrderKind → Bool
is_ttn_l_kind ttn_l = true
is_ttn_l_kind _ = false

abbrev pub is_transport : OrderKind → Bool
is_transport transport = true
is_transport _ = false

-- `_DRIVER_ASSIGNED_ONLY_KINDS`
abbrev pub is_assigned_only : OrderKind → Bool
is_assigned_only ttn_l = true
is_assigned_only transport = true
is_assigned_only _ = false

abbrev pub same_kind : OrderKind → OrderKind → Bool
same_kind individual individual = true
same_kind company company = true
same_kind ttn_l ttn_l = true
same_kind transport transport = true
same_kind _ _ = false

abbrev pub same_status : OrderStatus → OrderStatus → Bool
same_status new new = true
same_status awaiting_manager awaiting_manager = true
same_status accepted accepted = true
same_status delivered delivered = true
same_status OrderStatus.cancelled OrderStatus.cancelled = true
same_status _ _ = false

-- Keys that are not in the list yet are appended to it.
abbrev pub key_index : ChangedKey → ℕ
key_index key_comment = 0
key_index key_desired_date = 1
key_index key_driver = 2
key_index key_amount = 3
key_index key_address = 4
key_index key_fuel_type = 5
key_index key_volume = 6
key_index key_organization = 7

abbrev pub has_changed_key : ChangedKey → List ChangedKey → Bool
has_changed_key key keys = any (λ j. key_index j == key_index key) keys

abbrev pub merge_keys : List ChangedKey → List ChangedKey → List ChangedKey
merge_keys merged [] = merged
merge_keys merged (key ∷ keys) =
    merge_keys (if has_changed_key key merged then merged else merged ++ (key ∷ [])) keys

-- An accepted order that somebody else than a driver changed waits for the driver's confirmation.
abbrev pub with_ack : Bool → TokenUser → List ChangedKey → Order → Order
with_ack was_accepted actor changed_keys o =
    if was_accepted && not (is_driver actor.role)
    then record o {
      pending_driver_ack = true;
      pending_changed_fields =
          some (merge_keys (or_default o.pending_changed_fields []) changed_keys);
    }
    else o

-- An entry of the history of an order that its status does not change by.
abbrev pub note : ℕ → TokenUser → Order → OrderStatusLog
note k actor o = record {
  order_id = k;
  from_status = some o.status;
  to_status = o.status;
  changed_by_id = actor.id;
}
