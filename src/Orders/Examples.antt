-- ===== src/Orders/Examples.antt =====
-- Tests of the orders, and their theorems at concrete inputs.
use balt_oil.Prelude.{
  [], false, if◌then◌else◌, none, or_default, refl, some, true, ◌++◌, ◌∷◌, ◌≡◌, ◌≢◌, ◌⊎◌,
}
use balt_oil.Orders.Visible.{get_order-visible}
use balt_oil.Orders.Stranded.{accept_request, transition-stranded}
use balt_oil.Orders.Status.{Recounted, update_order-payment_status}
use balt_oil.Orders.Deliveries.{Delivered, delivery_request, transition-Delivered}
use balt_oil.Orders.Created.{ClientOrder, a_client, create_order-client}
use balt_oil.Orders.Closed.{cancel_request, date_only, transition-cancels, update_order-finished}
use balt_oil.Orders.Claims.{claim_order_once, transition_status_again}
use balt_oil.Orders.Reach.{OrdersReach-StatusPath, claimed, moved, start, then_}
use balt_oil.Orders.Progress.{StatusPath}
use balt_oil.Orders.Lifecycle.{
  allowed_roles, claim_order, deliver, transition, transition_claim, transition_status,
  validate_transition,
}
use balt_oil.Orders.Requests.{hard_delete_order}
use balt_oil.Orders.Edit.{
  changed_keys, charge_delivery, check_update, edited, replace_fields, update_order,
}
use balt_oil.Orders.Customer.{UpdateRequest, requested_fields}
use balt_oil.Orders.Create.{CreateRequest, check_create, create_order}
use balt_oil.Orders.Permissions.{
  all_in, check_closed_order_edit, check_edit_permissions, is_manager_editable,
}
use balt_oil.Orders.Numbers.{counter_key, generate_order_number, generate_ttn_number}
use balt_oil.Orders.Amounts.{final_amount_for}
use balt_oil.Orders.Access.{get_order, is_visible}
use balt_oil.Orders.Audit.{audit_diff, shown}
use balt_oil.Orders.Defs.{Replies}
use balt_oil.Prices.Formula.{visible_price}
use balt_oil.Prices.Tariffs.{
  ClientContext, Tariff, compute_expected_amount, discount_for, get_default_tariff,
  individual_client, resolve_fuel_price,
}
use balt_oil.Prices.Money.{order_total, price_first_breakdown}
use balt_oil.Prices.Rounding.{half_up, half_up_abs}
use balt_oil.Payments.Ops.{compute_payment_status, recomputed}
use balt_oil.Payments.Defs.{
  Books, Order, OrderStatus, OrderStatusLog, accepted, awaiting_manager, delivered, f_final_amount,
  field_changed, individual, issued, new, on_delivery, order_created, status_changed,
  ttn_individual, unpaid,
}
use balt_oil.Text.{codes}
use balt_oil.Table.{lookup}
use balt_oil.Service.{
  Role, TokenUser, err, forbidden, is_admin, is_driver, is_staff, manager, not_found, ok, ◌>>=◌,
}
use balt_oil.Prelude.Int.{pos, ◌+ℤ◌, ◌-ℤ◌}

abbrev boss : TokenUser
boss = record { id = 1; role = manager }

abbrev root : TokenUser
root = record { id = 9; role = Role.admin }

abbrev petr : TokenUser
petr = record { id = 3; role = Role.driver }

abbrev ivan : TokenUser
ivan = record { id = 4; role = Role.driver }

abbrev home_context : ClientContext
home_context = record {
  client_type = individual_client;
  credit_allowed = false;
  tariff_id = none;
  fuel_coefficient = 1000;
  delivery_coefficient = 1000;
  chats_only = false;
}

abbrev home_tariff : Tariff
home_tariff = record {
  is_default = true;
  base_delivery_cost = 0;
  client_type = none;
  base_tariff_id = none;
  formula_type = none;
  formula_value = none;
  formula_round_to = none;
  is_archived = false;
  fuel_prices =
      record { fuel_type = 1; price_per_liter = some (pos 900_000); is_hidden = false } ∷ [];
  volume_tiers = [];
}

abbrev replies : Replies
replies = record {
  client_context = λ client_id org_id. ok home_context;
  organization_ids = λ user_id. [];
  organization_target = λ org_id. none;
  resolve_zone = λ lat lon. none;
  is_active_fuel = λ fuel. true;
  starts_trip = λ order_id o. true;
  tariffs = (5, home_tariff) ∷ [];
  vat_rate = 22;
  now = 100;
  year = 2026;
}

abbrev no_orders : Books
no_orders = record {
  orders = [];
  payments = [];
  keys = [];
  status_logs = [];
  audit_logs = [];
  invoice_seq = 1;
  counters = [];
}

abbrev wish : CreateRequest
wish = record {
  fuel_type = 1;
  volume_requested = 100_000;
  delivery_address = codes "Tver";
  desired_date = none;
  contact_person_name = none;
  contact_person_phone = none;
  payment_type = none;
  client_comment = none;
  organization_id = none;
  delivery_lat = none;
  delivery_lon = none;
  client_id = none;
  manager_comment = none;
  driver_id = none;
  is_ttn_l = false;
  allow_delivery_unpaid = false;
  manual_delivery_cost = none;
  manual_price_per_liter = none;
  shipment_hold = false;
}

abbrev waiting_order : Order
waiting_order = record {
  order_number = (individual, 1);
  order_kind = individual;
  client_id = 2;
  fuel_type = 1;
  volume_requested = 100_000;
  volume_delivered = none;
  delivery_address = codes "Tver";
  desired_date = none;
  contact_person_name = none;
  contact_person_phone = none;
  ttn_number = none;
  ttn_kind = none;
  pending_driver_ack = false;
  pending_changed_fields = none;
  payment_type = on_delivery;
  expected_amount = some (pos 9_000_000);
  final_amount = none;
  trade_credit_contract_signed = false;
  status = awaiting_manager;
  organization_id = none;
  manager_id = none;
  driver_id = none;
  delivery_lat = none;
  delivery_lon = none;
  delivery_cost = none;
  delivery_cost_is_manual = false;
  manual_price_per_liter = none;
  client_comment = none;
  manager_comment = none;
  rejection_reason = none;
  payment_status = unpaid;
  allow_delivery_unpaid = false;
  shipment_override = none;
  driver_comment_ack_at = none;
  is_archived = false;
  archived_at = none;
}

abbrev waiting_books : Books
waiting_books = record no_orders {
  orders = (20, waiting_order) ∷ [];
  status_logs =
      record { order_id = 20; from_status = none; to_status = awaiting_manager; changed_by_id = 2 }
      ∷ [];
  audit_logs = record { order_id = 20; actor_id = 2; action = order_created } ∷ [];
  counters = (0, 1) ∷ [];
}

creates : create_order replies 20 wish (a_client 2) no_orders ≡ ok (waiting_books, waiting_order)
unfolding create_order check_create generate_order_number compute_expected_amount get_default_tariff
    resolve_fuel_price visible_price discount_for half_up half_up_abs order_total
    price_first_breakdown ◌+ℤ◌ ◌-ℤ◌
creates = refl

create_order-client_example :
    (ctx : ClientContext) × (replies.client_context 2 none ≡ ok ctx)
    × ClientOrder 2 ctx waiting_order
create_order-client_example =
    create_order-client replies 20 2 wish no_orders waiting_books waiting_order creates

abbrev free_order : Order
free_order = record waiting_order { status = new }

abbrev free_books : Books
free_books = record no_orders { orders = (20, free_order) ∷ [] }

abbrev taken_order : Order
taken_order = record free_order { driver_id = some 3; status = accepted }

abbrev take_log : OrderStatusLog
take_log = record { order_id = 20; from_status = some new; to_status = accepted; changed_by_id = 3 }

abbrev taken_books : Books
taken_books = record free_books { orders = (20, taken_order) ∷ []; status_logs = take_log ∷ [] }

claims : claim_order 20 petr free_books ≡ ok (taken_books, taken_order)
unfolding claim_order
claims = refl

claim_order_once_example :
    (lookup 20 taken_books.orders ≡ some taken_order)
    × (taken_order.driver_id ≡ some 3)
    × (taken_order.status ≡ accepted)
    × (claim_order 20 ivan taken_books ≡ err not_found)
claim_order_once_example =
    claim_order_once 20 petr ivan free_books taken_books taken_order claims refl

abbrev done_order : Order
done_order = record taken_order {
  status = delivered;
  ttn_number = some (issued ttn_individual 2026 1);
  ttn_kind = some ttn_individual;
  volume_delivered = some 100_000;
  final_amount = some (pos 9_000_000);
}

abbrev done_books : Books
done_books = record taken_books {
  orders = (20, done_order) ∷ [];
  status_logs =
      take_log
      ∷ record {
        order_id = 20;
        from_status = some accepted;
        to_status = delivered;
        changed_by_id = 3;
      }
      ∷ [];
  audit_logs =
      record { order_id = 20; actor_id = 3; action = status_changed accepted delivered } ∷ [];
  counters = (6083, 1) ∷ [];
}

delivers :
    transition replies 20 (delivery_request none none) petr taken_books
    ≡ ok (done_books, done_order)
unfolding transition get_order validate_transition allowed_roles deliver final_amount_for
    generate_ttn_number counter_key
delivers = refl

transition-Delivered_example :
    (o : Order) × (lookup 20 taken_books.orders ≡ some o)
    × (o.status ≡ accepted)
    × (is_driver petr.role ≡ true)
    × Delivered replies petr (or_default none o.volume_requested) o done_order
transition-Delivered_example =
    transition-Delivered replies 20 none none petr taken_books done_books done_order delivers

delivers_plainly :
    transition_status replies 20 (delivery_request none none) petr none taken_books
    ≡ ok (done_books, done_order)
unfolding transition_status
delivers_plainly = delivers

abbrev keyed_books : Books
keyed_books = record done_books { keys = (7, transition_claim 20) ∷ [] }

delivers_once :
    transition_status replies 20 (delivery_request none none) petr (some 7) taken_books
    ≡ ok (keyed_books, done_order)
unfolding transition_status transition get_order validate_transition allowed_roles deliver
    final_amount_for generate_ttn_number counter_key
delivers_once = refl

OrdersReach-StatusPath_example :
    (lookup 20 done_books.orders ≡ none)
    ⊎ ((o' : Order) × (lookup 20 done_books.orders ≡ some o') × StatusPath new o'.status)
OrdersReach-StatusPath_example = OrdersReach-StatusPath 20 free_order refl (
    then_ (then_ start (claimed 20 petr taken_order claims))
      (moved replies 20 (delivery_request none none) petr none done_order delivers_plainly))

transition_status_again_example :
    transition_status replies 21 accept_request boss (some 7) keyed_books
    ≡ (get_order 21 boss keyed_books >>= λ (seen : Order). ok (keyed_books, seen))
transition_status_again_example =
    transition_status_again replies replies 20 21 7 (delivery_request none none) accept_request petr
      boss taken_books keyed_books done_order delivers_once

transition-cancels_example :
    (b' : Books) × (o' : Order) × (transition replies 20 (cancel_request none) boss taken_books
      ≡ ok (b', o'))
    × (o'.status ≡ OrderStatus.cancelled)
transition-cancels_example =
    transition-cancels replies 20 none boss taken_books taken_order refl refl refl

get_order-visible_example :
    get_order 20 ivan taken_books
    ≡ (if is_visible ivan [] none taken_order then ok taken_order else err forbidden)
get_order-visible_example = get_order-visible 20 ivan taken_books taken_order refl

abbrev priced : UpdateRequest
priced = record (date_only 0) { desired_date = none; final_amount = some (pos 8_000_000) }

abbrev priced_order : Order
priced_order = record done_order { final_amount = some (pos 8_000_000) }

abbrev priced_books : Books
priced_books = record done_books {
  orders = (20, priced_order) ∷ [];
  status_logs =
      done_books.status_logs
      ++ (record {
        order_id = 20;
        from_status = some delivered;
        to_status = delivered;
        changed_by_id = 9;
      }
          ∷ []);
  audit_logs =
      done_books.audit_logs
      ++ (record { order_id = 20; actor_id = 9; action = field_changed f_final_amount } ∷ []);
}

prices : update_order replies 20 priced root done_books ≡ ok (priced_books, priced_order)
unfolding update_order get_order check_update check_edit_permissions check_closed_order_edit
    requested_fields edited replace_fields charge_delivery recomputed compute_payment_status
    changed_keys audit_diff shown ◌-ℤ◌
prices = refl

update_order-finished_example :
    (is_staff root.role ≡ true)
    × (priced.fuel_type ≡ none)
    × (priced.volume_requested ≡ none)
    × ((is_admin root.role ≡ true) ⊎ (all_in is_manager_editable (requested_fields priced) ≡ true))
    × (priced_order.status ≡ done_order.status)
    × (priced_order.fuel_type ≡ done_order.fuel_type)
    × (priced_order.volume_requested ≡ done_order.volume_requested)
update_order-finished_example =
    update_order-finished replies 20 priced root done_books priced_books done_order priced_order
      refl refl prices

update_order-payment_status_example : Recounted (pos 0) priced done_order priced_order
update_order-payment_status_example =
    update_order-payment_status replies 20 priced root done_books priced_books done_order
      priced_order refl prices

deletes :
    hard_delete_order 20 root done_books
    ≡ ok (record no_orders { counters = (6083, 1) ∷ [] }, some 100_000)
unfolding hard_delete_order
deletes = refl

abbrev lost_order : Order
lost_order = record free_order { status = accepted }

abbrev lost_books : Books
lost_books = record free_books {
  orders = (20, lost_order) ∷ [];
  status_logs = take_log ∷ [];
  audit_logs = record { order_id = 20; actor_id = 3; action = status_changed new accepted } ∷ [];
}

loses : transition replies 20 accept_request petr free_books ≡ ok (lost_books, lost_order)
unfolding transition get_order validate_transition allowed_roles
loses = refl

transition-stranded_example :
    (lost_order.status ≡ accepted)
    × (lost_order.driver_id ≡ none)
    × ((done : Books × Order)
        → transition replies 20 (delivery_request none none) petr lost_books ≢ ok done)
transition-stranded_example =
    transition-stranded replies replies 20 petr petr free_books lost_books free_order lost_order
      none none refl refl loses
