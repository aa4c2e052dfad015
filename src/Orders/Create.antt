-- ===== src/Orders/Create.antt =====
-- `create_order`, without the documents, the contract and the saved objects that follow it.
use balt_oil.Orders.Numbers.{generate_order_number}
use balt_oil.Orders.Amounts.{
  as_fraction, expected_amount_for, manual_fuel_subtotal, or_else, zone_cost,
}
use balt_oil.Orders.Audit.{day}
use balt_oil.Orders.Defs.{Replies, is_ttn_l_kind}
use balt_oil.Prices.Money.{order_total}
use balt_oil.Prices.Tariffs.{
  ClientContext, ClientType, company_client, individual_client, is_individual_client,
  validate_payment_type,
}
use balt_oil.Payments.Defs.{
  Books, Order, OrderKind, PaymentType, awaiting_manager, company, debt, hold, individual, new,
  on_delivery, order_created, prepaid, ttn_l, unpaid,
}
use balt_oil.Text.{Text, strip}
use balt_oil.Table.{put}
use balt_oil.Service.{
  Result, Role, TokenUser, err, forbidden, is_client, is_staff, ok, raise_if, validation, ◌>>=◌,
  ◌>>◌,
}
use balt_oil.Prelude.Int.{ℤ}
use balt_oil.Prelude.{
  Bool, Option, [], false, if◌then◌else◌, is_some, ltb, none, not, or_default, some, true, ℕ, ◌&&◌,
  ◌++◌, ◌/◌, ◌||◌, ◌∷◌,
}

-- `payment_type` and the other fields that a client may leave out are options.
pub record CreateRequest : Type 0 where
  pub fuel_type : ℕ
  pub volume_requested : ℕ
  pub delivery_address : Text
  pub desired_date : Option ℕ
  pub contact_person_name : Option Text
  pub contact_person_phone : Option Text
  pub payment_type : Option PaymentType
  pub client_comment : Option Text
  pub organization_id : Option ℕ
  pub delivery_lat : Option ℤ
  pub delivery_lon : Option ℤ
  pub client_id : Option ℕ
  pub manager_comment : Option Text
  pub driver_id : Option ℕ
  pub is_ttn_l : Bool
  pub allow_delivery_unpaid : Bool
  pub manual_delivery_cost : Option ℤ
  pub manual_price_per_liter : Option ℕ
  pub shipment_hold : Bool

-- MIN_VOLUME_L and LARGE_VOLUME_THRESHOLD_L
abbrev pub min_volume_l : ℕ
min_volume_l = 30_000

abbrev pub large_volume_threshold_l : ℕ
large_volume_threshold_l = 300_000

-- Is the day before the day of the clock?
abbrev pub is_past : ℕ → Option ℕ → Bool
is_past now none = false
is_past now (some date) = ltb (date / day) (now / day)

-- The client of the order: an employee names one or stands for one, a client is one.
abbrev pub client_for : CreateRequest → TokenUser → Result ℕ
client_for request actor =
    if is_staff actor.role then ok (or_default request.client_id actor.id) else do
      raise_if (is_some request.client_id) forbidden
      raise_if (is_some request.driver_id) forbidden
      ok actor.id

abbrev pub kind_for : Bool → ClientType → OrderKind
kind_for true client_type = ttn_l
kind_for false individual_client = individual
kind_for false company_client = company

abbrev pub payment_for : Option PaymentType → Role → ClientContext → Result PaymentType
payment_for chosen role ctx = if is_individual_client ctx.client_type then ok on_delivery else do
  let payment_type = or_default chosen (if ctx.credit_allowed then debt else prepaid)
  validate_payment_type payment_type role ctx.client_type ctx.credit_allowed
  ok payment_type

abbrev pub no_text : Text → Bool
no_text [] = true
no_text (c ∷ cs) = false

abbrev pub normalize_delivery_address : Text → TokenUser → Result Text
normalize_delivery_address address actor = do
  raise_if (no_text (strip address) && is_client actor.role) validation
  ok (strip address)

abbrev pub if_staff {ℓ} : {A : Type ℓ} → TokenUser → Option A → Option A
if_staff actor value = if is_staff actor.role then value else none

-- The price of a manager stands for the tariff's.
abbrev pub fuel_of : Option ℕ → ℕ → Option ℤ → Option ℤ
fuel_of none volume by_tariff = by_tariff
fuel_of (some price) volume by_tariff = some (manual_fuel_subtotal price volume)

-- The zone's cost; a failure on the way leaves it out.
abbrev pub delivery_for : Replies → ClientContext → Text → CreateRequest → Option ℤ
delivery_for r ctx [] request = none
delivery_for r ctx (c ∷ cs) request =
    elim (zone_cost r ctx request.volume_requested request.delivery_lat request.delivery_lon) [
      | err e ↦ none
      | ok cost ↦ cost
    ]

abbrev pub needs_approval : TokenUser → OrderKind → ClientContext → ℕ → Option ℤ → Bool
needs_approval actor kind ctx volume delivery_cost =
    not (is_staff actor.role)
    && not (is_ttn_l_kind kind)
    && (is_individual_client ctx.client_type
        || ltb large_volume_threshold_l volume
        || not (is_some delivery_cost))

-- The checks that come before anything is read or computed.
unfoldable pub check_create : CreateRequest → TokenUser → Result (Unit {0})
check_create request actor = do
  raise_if (not (is_staff actor.role) && not (is_client actor.role)) forbidden
  raise_if (not (is_staff actor.role) && ltb request.volume_requested min_volume_l) validation
  raise_if (request.is_ttn_l && not (is_staff actor.role)) forbidden
  raise_if (request.is_ttn_l && not (is_some request.driver_id)) validation

abbrev pub created : ℕ → TokenUser → Order → Books → Books
created id actor o b = record b {
  orders = put id o b.orders;
  status_logs =
      b.status_logs
      ++ (record {
        order_id = id;
        from_status = none;
        to_status = o.status;
        changed_by_id = actor.id;
      }
          ∷ []);
  audit_logs =
      b.audit_logs ++ (record { order_id = id; actor_id = actor.id; action = order_created } ∷ []);
}

unfoldable pub create_order :
    Replies → ℕ → CreateRequest → TokenUser → Books → Result (Books × Order)
create_order r id request actor b = do
  check_create request actor
  client_id ← client_for request actor
  ctx ← r.client_context client_id request.organization_id
  raise_if (not (is_staff actor.role) && ctx.chats_only) forbidden
  let kind = kind_for request.is_ttn_l ctx.client_type
  payment_type ← payment_for request.payment_type actor.role ctx
  address ← normalize_delivery_address request.delivery_address actor
  raise_if (is_past r.now request.desired_date) validation
  raise_if (not (r.is_active_fuel request.fuel_type)) validation
  let (number, counters) = generate_order_number kind b.counters
  by_tariff ← expected_amount_for r ctx request.fuel_type request.volume_requested
  let manual_price = if_staff actor request.manual_price_per_liter
  let fuel = fuel_of manual_price request.volume_requested by_tariff
  let manual_delivery = if_staff actor request.manual_delivery_cost
  let delivery_cost = or_else manual_delivery (delivery_for r ctx address request)
  let expected =
      order_total (as_fraction fuel) delivery_cost (some request.volume_requested) r.vat_rate
        (is_some manual_price)
  let waits = needs_approval actor kind ctx request.volume_requested delivery_cost
  let o : Order = record {
    order_number = number;
    order_kind = kind;
    client_id = client_id;
    fuel_type = request.fuel_type;
    volume_requested = request.volume_requested;
    volume_delivered = none;
    delivery_address = address;
    desired_date = request.desired_date;
    contact_person_name = request.contact_person_name;
    contact_person_phone = request.contact_person_phone;
    ttn_number = none;
    ttn_kind = none;
    pending_driver_ack = false;
    pending_changed_fields = none;
    payment_type = payment_type;
    expected_amount = expected;
    final_amount = none;
    trade_credit_contract_signed = false;
    status = if waits then awaiting_manager else new;
    organization_id = request.organization_id;
    manager_id = if_staff actor (some actor.id);
    driver_id = if_staff actor request.driver_id;
    delivery_lat = request.delivery_lat;
    delivery_lon = request.delivery_lon;
    delivery_cost = delivery_cost;
    delivery_cost_is_manual = is_some manual_delivery;
    manual_price_per_liter = manual_price;
    client_comment = request.client_comment;
    manager_comment = if_staff actor request.manager_comment;
    rejection_reason = none;
    payment_status = unpaid;
    allow_delivery_unpaid = is_staff actor.role && request.allow_delivery_unpaid;
    shipment_override = if is_staff actor.role && request.shipment_hold then some hold else none;
    driver_comment_ack_at = none;
    is_archived = false;
    archived_at = none;
  }
  ok (created id actor o (record b { counters = counters }), o)
