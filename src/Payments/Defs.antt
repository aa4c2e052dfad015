-- ===== src/Payments/Defs.antt =====
-- Rows of the payments and of the orders. An amount is a whole number of kopecks, as the columns
-- `Numeric(_, 2)` keep it; the clock counts microseconds; an idempotency key is a number.
use balt_oil.Text.{Text}
use balt_oil.Table.{Table}
use balt_oil.Prelude.Int.{ℤ}
use balt_oil.Prelude.{Bool, List, Option, false, some, true, ℕ}

pub data OrderStatus : Type 0 where
  new awaiting_manager accepted delivered cancelled : OrderStatus

pub data OrderKind : Type 0 where
  individual company ttn_l transport : OrderKind

pub data PaymentType : Type 0 where
  prepaid on_delivery trade_credit postpaid debt : PaymentType

-- The column `payment_status` of an order.
pub data OrderPayment : Type 0 where
  unpaid partially_paid fully_paid overpaid : OrderPayment

-- The column `shipment_override`.
pub data ShipmentOverride : Type 0 where
  allow hold : ShipmentOverride

-- The enum of ttn_number.py: company (Ю), individual (Ф), special (Л).
pub data TtnKind : Type 0 where
  ttn_company ttn_individual ttn_special : TtnKind

-- A number that a counter gave, by the parts of its text ТТН-{year}-{prefix}{seq}, or a typed one.
pub data TtnNumber : Type 0 where
  issued : TtnKind → ℕ → ℕ → TtnNumber
  typed : Text → TtnNumber

-- The keys of `pending_changed_fields`.
pub data ChangedKey : Type 0 where
  key_comment key_desired_date key_driver key_amount : ChangedKey
  key_address key_fuel_type key_volume key_organization : ChangedKey

-- Volumes are hundredths of a litre, `manual_price_per_liter` ten-thousandths of a rouble. The
-- number of an order is its kind at the creation and the number of that kind's sequence.
pub record Order : Type 0 where
  pub order_number : OrderKind × ℕ
  pub order_kind : OrderKind
  pub client_id : ℕ
  pub fuel_type : ℕ
  pub volume_requested : ℕ
  pub volume_delivered : Option ℕ
  pub delivery_address : Text
  pub desired_date : Option ℕ
  pub contact_person_name : Option Text
  pub contact_person_phone : Option Text
  pub ttn_number : Option TtnNumber
  pub ttn_kind : Option TtnKind
  pub pending_driver_ack : Bool
  pub pending_changed_fields : Option (List ChangedKey)
  pub payment_type : PaymentType
  pub expected_amount : Option ℤ
  pub final_amount : Option ℤ
  pub trade_credit_contract_signed : Bool
  pub status : OrderStatus
  pub organization_id : Option ℕ
  pub manager_id : Option ℕ
  pub driver_id : Option ℕ
  pub delivery_lat : Option ℤ
  pub delivery_lon : Option ℤ
  pub delivery_cost : Option ℤ
  pub delivery_cost_is_manual : Bool
  pub manual_price_per_liter : Option ℕ
  pub client_comment : Option Text
  pub manager_comment : Option Text
  pub rejection_reason : Option Text
  pub payment_status : OrderPayment
  pub allow_delivery_unpaid : Bool
  pub shipment_override : Option ShipmentOverride
  pub driver_comment_ack_at : Option ℕ
  pub is_archived : Bool
  pub archived_at : Option ℕ

pub data PaymentStatus : Type 0 where
  pending paid cancelled : PaymentStatus

pub data PaymentMethod : Type 0 where
  cash card bank_transfer : PaymentMethod

pub data PaymentKind : Type 0 where
  prepayment actual invoice : PaymentKind

-- `invoice_number` is the year and the number of the sequence, `INV-2026-000001`.
pub record Payment : Type 0 where
  pub order_id : ℕ
  pub client_id : ℕ
  pub kind : PaymentKind
  pub status : PaymentStatus
  pub method : Option PaymentMethod
  pub amount : ℤ
  pub invoice_number : Option (ℕ × ℕ)
  pub paid_at : Option ℕ
  pub notes : Option Text
  pub created_by_id : ℕ
  pub created_at : ℕ

pub data Operation : Type 0 where
  payment_record order_transition : Operation

pub record IdempotencyKey : Type 0 where
  pub operation : Operation
  pub order_id : Option ℕ
  pub payment_id : Option ℕ

pub record OrderStatusLog : Type 0 where
  pub order_id : ℕ
  pub from_status : Option OrderStatus
  pub to_status : OrderStatus
  pub changed_by_id : ℕ

-- `_AUDITED_FIELDS` of order_service.py.
pub data AuditedField : Type 0 where
  f_fuel_type f_volume_requested f_volume_delivered f_delivery_address : AuditedField
  f_desired_date f_contact_person_name f_contact_person_phone : AuditedField
  f_client_comment f_manager_comment f_driver_id f_expected_amount : AuditedField
  f_final_amount f_delivery_cost f_payment_type f_organization_id f_client_id : AuditedField
  f_allow_delivery_unpaid f_trade_credit_contract_signed : AuditedField

-- The action of an entry, with its values: the field that changed, the two statuses, the amount.
pub data OrderAction : Type 0 where
  order_created : OrderAction
  field_changed : AuditedField → OrderAction
  status_changed : OrderStatus → OrderStatus → OrderAction
  payment_recorded payment_cancelled : ℤ → OrderAction

pub record OrderAuditLog : Type 0 where
  pub order_id : ℕ
  pub actor_id : ℕ
  pub action : OrderAction

-- The database, with the sequence of the invoice numbers. `counters` is order_kind_counters.
pub record Books : Type 0 where
  pub orders : Table Order
  pub payments : Table Payment
  pub keys : Table IdempotencyKey
  pub status_logs : List OrderStatusLog
  pub audit_logs : List OrderAuditLog
  pub invoice_seq : ℕ
  pub counters : Table ℕ

abbrev pub is_paid : PaymentStatus → Bool
is_paid paid = true
is_paid _ = false

abbrev pub is_pending : PaymentStatus → Bool
is_pending pending = true
is_pending _ = false

abbrev pub is_cancelled : PaymentStatus → Bool
is_cancelled PaymentStatus.cancelled = true
is_cancelled _ = false

abbrev pub is_individual : OrderKind → Bool
is_individual individual = true
is_individual _ = false

abbrev pub is_delivered : OrderStatus → Bool
is_delivered delivered = true
is_delivered _ = false

-- `status in (DELIVERED, CANCELLED)`
abbrev pub is_finished : OrderStatus → Bool
is_finished delivered = true
is_finished OrderStatus.cancelled = true
is_finished _ = false

-- `_CREDIT_PAYMENT_TYPES`
abbrev pub is_credit : PaymentType → Bool
is_credit debt = true
is_credit trade_credit = true
is_credit postpaid = true
is_credit _ = false

abbrev pub is_on_delivery : PaymentType → Bool
is_on_delivery on_delivery = true
is_on_delivery _ = false

-- `payment_status in ("paid", "overpaid")`
abbrev pub is_settled : OrderPayment → Bool
is_settled fully_paid = true
is_settled overpaid = true
is_settled _ = false

abbrev pub is_hold : Option ShipmentOverride → Bool
is_hold (some hold) = true
is_hold _ = false
