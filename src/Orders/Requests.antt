-- ===== src/Orders/Requests.antt =====
-- The other requests of one order: `ack_changes`, `ack_comment`, `set_shipment_override`,
-- `reschedule_order`, `archive_order` and `hard_delete_order`.
use balt_oil.Prelude.{
  List, Option, [], false, if◌then◌else◌, is_some, keep, none, not, same_id, some, true, ℕ, ◌&&◌,
  ◌++◌, ◌==◌, ◌∷◌,
}
use balt_oil.Orders.Access.{get_order}
use balt_oil.Orders.Audit.{audit_diff}
use balt_oil.Orders.Defs.{
  Replies, RescheduleRequest, ShipmentMode, is_accepted, mode_allow, mode_auto, mode_hold, note,
  with_ack,
}
use balt_oil.Payments.Ops.{live_order}
use balt_oil.Payments.Defs.{
  Books, ChangedKey, Order, ShipmentOverride, allow, hold, key_desired_date, key_driver,
}
use balt_oil.Table.{drop_rows, lookup, put, remove}
use balt_oil.Service.{
  Result, TokenUser, forbidden, is_admin, is_driver, is_staff, not_found, ok, or_raise, raise_if,
  validation, ◌>>=◌, ◌>>◌,
}

unfoldable pub ack_changes : ℕ → TokenUser → Books → Result (Books × Order)
ack_changes k actor b = do
  raise_if (not (is_driver actor.role)) forbidden
  o ← get_order k actor b
  let o' = record o { pending_driver_ack = false; pending_changed_fields = none }
  ok (record b { orders = put k o' b.orders }, o')

unfoldable pub ack_comment : Replies → ℕ → TokenUser → Books → Result (Books × Order)
ack_comment r k actor b = do
  raise_if (not (is_driver actor.role)) forbidden
  o ← get_order k actor b
  let o' = record o { driver_comment_ack_at = some r.now }
  ok (record b { orders = put k o' b.orders }, o')

abbrev pub override_of : ShipmentMode → Option ShipmentOverride
override_of mode_allow = some allow
override_of mode_hold = some hold
override_of mode_auto = none

abbrev pub noted : ℕ → TokenUser → Order → Books → Books
noted k actor o b = record b {
  orders = put k o b.orders;
  status_logs = b.status_logs ++ (note k actor o ∷ []);
}

unfoldable pub set_shipment_override : ℕ → ShipmentMode → TokenUser → Books → Result (Books × Order)
set_shipment_override k mode actor b = do
  raise_if (not (is_staff actor.role)) forbidden
  o ← get_order k actor b
  let o' = record o { shipment_override = override_of mode }
  ok (noted k actor o' b, o')

abbrev pub changes_of : RescheduleRequest → List ChangedKey
changes_of request =
    (if is_some request.desired_date then key_desired_date ∷ [] else [])
    ++ (if is_some request.driver_id then key_driver ∷ [] else [])

abbrev pub or_old : Option ℕ → Option ℕ → Option ℕ
or_old none old = old
or_old (some a) old = some a

abbrev pub at_new_time : RescheduleRequest → Order → Order
at_new_time request o = record o {
  desired_date = or_old request.desired_date o.desired_date;
  driver_id = or_old request.driver_id o.driver_id;
}

unfoldable pub reschedule_order : ℕ → RescheduleRequest → TokenUser → Books → Result (Books × Order)
reschedule_order k request actor b = do
  o ← get_order k actor b
  raise_if (not (is_some request.desired_date) && not (is_some request.driver_id)) validation
  raise_if (is_some request.driver_id && not (is_staff actor.role)) forbidden
  let o' = with_ack (is_accepted o.status) actor (changes_of request) (at_new_time request o)
  let b' = noted k actor o' b
  ok (record b' { audit_logs = b.audit_logs ++ audit_diff k actor o o' }, o')

unfoldable pub archive_order : Replies → ℕ → TokenUser → Books → Result Books
archive_order r k actor b = do
  raise_if (not (is_staff actor.role)) forbidden
  o ← or_raise (live_order k b.orders) not_found
  let o' = record o { is_archived = true; archived_at = some r.now }
  ok (noted k actor o' b)

-- The rows of the order go; the counters stay. The volume is what returns to the stock.
unfoldable pub hard_delete_order : ℕ → TokenUser → Books → Result (Books × Option ℕ)
hard_delete_order k actor b = do
  raise_if (not (is_admin actor.role)) forbidden
  o ← or_raise (lookup k b.orders) not_found
  ok (
    record b {
      payments = drop_rows (λ p. p.order_id == k) b.payments;
      status_logs = keep (λ l. not (l.order_id == k)) b.status_logs;
      audit_logs = keep (λ l. not (l.order_id == k)) b.audit_logs;
      keys = drop_rows (λ i. same_id i.order_id k) b.keys;
      orders = remove k b.orders;
    },
    o.volume_delivered,
  )
