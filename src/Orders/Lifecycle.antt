-- ===== src/Orders/Lifecycle.antt =====
-- app/core/status_machine.py, `transition_status` and `claim_order`. A refused transition, a refused
-- delivery and a validation error are all the status 422.
use balt_oil.Orders.Amounts.{final_amount_for, recompute_expected_amount}
use balt_oil.Orders.Numbers.{generate_ttn_number, resolve_ttn_kind}
use balt_oil.Orders.Access.{get_order}
use balt_oil.Orders.Defs.{
  Replies, TransitionRequest, is_awaiting, is_new, is_transport, is_ttn_l_kind,
}
use balt_oil.Payments.Ops.{live_order}
use balt_oil.Payments.Defs.{
  Books, IdempotencyKey, Order, OrderStatus, TtnKind, TtnNumber, accepted, awaiting_manager,
  delivered, is_delivered, new, order_transition, status_changed, typed,
}
use balt_oil.Text.{Text, strip}
use balt_oil.Table.{Table, lookup, put}
use balt_oil.Service.{
  Result, Role, TokenUser, err, forbidden, is_driver, is_staff, not_found, ok, or_raise, raise_if,
  validation, ◌>>=◌, ◌>>◌,
}
use balt_oil.Prelude.{
  Bool, Option, [], if◌then◌else◌, is_some, none, not, or_default, same_id, some, ℕ, ◌&&◌, ◌++◌,
  ◌∷◌,
}

-- ALLOWED_TRANSITIONS: the roles that may take an order from one status to another.
unfoldable pub allowed_roles : OrderStatus → OrderStatus → Option (Role → Bool)
allowed_roles awaiting_manager new = some is_staff
allowed_roles awaiting_manager OrderStatus.cancelled = some is_staff
allowed_roles new accepted = some is_driver
allowed_roles new OrderStatus.cancelled = some is_staff
allowed_roles accepted delivered = some is_driver
allowed_roles accepted OrderStatus.cancelled = some is_staff
allowed_roles _ _ = none

unfoldable pub validate_transition : OrderStatus → OrderStatus → Role → Result (Unit {0})
validate_transition current to_status role = elim (allowed_roles current to_status) [
  | none ↦ err validation
  | some may ↦ raise_if (not (may role)) forbidden
]

-- The number that the driver typed, or the next one of the counter.
abbrev pub waybill : Text → TtnKind → ℕ → Table ℕ → TtnNumber × Table ℕ
waybill [] kind year counters = generate_ttn_number kind year counters
waybill (c ∷ cs) kind year counters = (typed (c ∷ cs), counters)

-- What a transition to DELIVERED writes, with the counters of the waybills.
unfoldable pub deliver :
    Replies → TransitionRequest → TokenUser → Order → Table ℕ → Result (Order × Table ℕ)
deliver r request actor o counters = do
  raise_if (is_driver actor.role && not (same_id o.driver_id actor.id)) validation
  let kind = resolve_ttn_kind o.order_kind
  let (number, counters') = waybill (strip (or_default request.ttn_number [])) kind r.year counters
  let volume = or_default request.volume_delivered o.volume_requested
  final ← final_amount_for r o volume
  ok (
    record o {
      ttn_number = some number;
      ttn_kind = some kind;
      volume_delivered = some volume;
      final_amount = final;
    },
    counters',
  )

-- A reason that is given and not empty replaces the old one.
abbrev pub reject : OrderStatus → Option Text → Order → Order
reject OrderStatus.cancelled (some (c ∷ cs)) o = record o { rejection_reason = some (c ∷ cs) }
reject _ _ o = o

abbrev pub approve : Replies → OrderStatus → Order → Order
approve r previous o =
    if is_awaiting previous && is_new o.status && not (is_some o.expected_amount)
    then recompute_expected_amount r o
    else o

abbrev pub transition_logged : ℕ → TokenUser → OrderStatus → OrderStatus → Books → Books
transition_logged k actor from_status to_status b = record b {
  status_logs =
      b.status_logs
      ++ (record {
        order_id = k;
        from_status = some from_status;
        to_status = to_status;
        changed_by_id = actor.id;
      }
          ∷ []);
  audit_logs =
      b.audit_logs
      ++ (record {
        order_id = k;
        actor_id = actor.id;
        action = status_changed from_status to_status;
      }
          ∷ []);
}

-- `transition_status` behind the idempotency gate. The trip in delivery_service is started last: a
-- refusal there undoes the whole transition.
unfoldable pub transition :
    Replies → ℕ → TransitionRequest → TokenUser → Books → Result (Books × Order)
transition r k request actor b = do
  o ← get_order k actor b
  validate_transition o.status request.to_status actor.role
  written ←
      if is_delivered request.to_status
      then deliver r request actor o b.counters
      else ok (o, b.counters)
  let moved = record (reject request.to_status request.rejection_reason written.0) {
    status = request.to_status;
  }
  let o' = approve r o.status moved
  raise_if
      (is_delivered request.to_status
        && not (is_transport o.order_kind)
        && not (r.starts_trip k o'))
      validation
  ok (
    record (transition_logged k actor o.status request.to_status b) {
      orders = put k o' b.orders;
      counters = written.1;
    },
    o',
  )

abbrev pub transition_claim : ℕ → IdempotencyKey
transition_claim order_id = record {
  operation = order_transition;
  order_id = some order_id;
  payment_id = none;
}

-- A key that is in use, whatever for, answers with the order as it is.
unfoldable pub transition_status :
    Replies → ℕ → TransitionRequest → TokenUser → Option ℕ → Books → Result (Books × Order)
transition_status r k request actor none b = transition r k request actor b
transition_status r k request actor (some key) b = elim (lookup key b.keys) [
  | some used ↦ get_order k actor b >>= λ (o : Order). ok (b, o)
  | none ↦ transition r k request actor (record b { keys = put key (transition_claim k) b.keys })
]

-- The order that `claim_order` selects, if it is there.
abbrev pub claimable : ℕ → Books → Option Order
claimable k b = elim (live_order k b.orders) [
  | none ↦ none
  | some o ↦
      if is_new o.status && not (is_some o.driver_id) && not (is_ttn_l_kind o.order_kind)
      then some o
      else none
]

unfoldable pub claim_order : ℕ → TokenUser → Books → Result (Books × Order)
claim_order k actor b = do
  raise_if (not (is_driver actor.role)) forbidden
  o ← or_raise (claimable k b) not_found
  let o' = record o { driver_id = some actor.id; status = accepted }
  ok (
    record b {
      orders = put k o' b.orders;
      status_logs =
          b.status_logs
          ++ (record {
            order_id = k;
            from_status = some new;
            to_status = accepted;
            changed_by_id = actor.id;
          }
              ∷ []);
    },
    o',
  )
