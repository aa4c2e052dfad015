-- ===== src/Orders/Deliveries.antt =====
-- Deliveries and cancellations: what `transition_status` writes, and to whom it says no.
use balt_oil.Orders.Shapes.{get_order-live}
use balt_oil.Orders.Lifecycle.{allowed_roles, approve, deliver, transition, validate_transition}
use balt_oil.Orders.Numbers.{resolve_ttn_kind}
use balt_oil.Orders.Amounts.{final_amount_for}
use balt_oil.Orders.Access.{get_order}
use balt_oil.Orders.Defs.{Replies, TransitionRequest, is_transport}
use balt_oil.Payments.Defs.{Books, Order, OrderStatus, accepted, delivered}
use balt_oil.Text.{Text}
use balt_oil.Table.{Table, lookup}
use balt_oil.Service.{
  >>=_Post, Post, Post_ok, Role, TokenUser, ends, is_driver, ok, raise_if-Post, validation,
}
use balt_oil.Prelude.Int.{ℤ}
use balt_oil.Prelude.{
  Option, arith, false, is_some, none, not, or_default, refl, same_id, some, true, ℕ, ◌&&◌, ◌≡◌,
}

abbrev pub delivery_request : Option Text → Option ℕ → TransitionRequest
delivery_request ttn_number volume_delivered = record {
  to_status = delivered;
  ttn_number = ttn_number;
  volume_delivered = volume_delivered;
  rejection_reason = none;
}

-- The marks of a delivery on the order `o'` that was `o`.
abbrev pub Delivered : Replies → TokenUser → ℕ → Order → Order → Type 0
Delivered r actor volume o o' =
    (same_id o.driver_id actor.id ≡ true)
    × (o'.volume_delivered ≡ some volume)
    × (o'.ttn_kind ≡ some (resolve_ttn_kind o.order_kind))
    × (is_some o'.ttn_number ≡ true)
    × (final_amount_for r o volume ≡ ok o'.final_amount)

deliver-Delivered :
    (r : Replies) (request : TransitionRequest) (actor : TokenUser) (o : Order) (counters : Table ℕ)
    → is_driver actor.role ≡ true
    → Post
        (λ w. Delivered r actor (or_default request.volume_delivered o.volume_requested) o w.0)
        (deliver r request actor o counters)
unfolding deliver
deliver-Delivered r request actor o counters drives =
    raise_if-Post (is_driver actor.role && not (same_id o.driver_id actor.id)) validation λ own.
      >>=_Post (final_amount_for r o (or_default request.volume_delivered o.volume_requested))
        (λ final counted. ends _ (ground arith, refl, refl, refl, counted))

validate_transition-accepted :
    (s : OrderStatus) (role : Role)
    → validate_transition s delivered role ≡ ok tt
    → (s ≡ accepted) × (is_driver role ≡ true)
unfolding validate_transition allowed_roles
validate_transition-accepted s role e = ground arith

approve-delivered :
    (r : Replies) (s : OrderStatus) (o : Order) → o.status ≡ delivered → approve r s o ≡ o
approve-delivered r s o is = ground arith

transition-delivers :
    (r : Replies) (k : ℕ) (ttn_number : Option Text) (volume : Option ℕ) (actor : TokenUser)
    (b : Books)
    → Post
        (λ done.
          (o : Order) × (lookup k b.orders ≡ some o)
          × (o.status ≡ accepted)
          × (is_driver actor.role ≡ true)
          × Delivered r actor (or_default volume o.volume_requested) o done.1)
        (transition r k (delivery_request ttn_number volume) actor b)
unfolding transition
transition-delivers r k ttn_number volume actor b = >>=_Post (get_order k actor b) λ o seen.
    >>=_Post (validate_transition o.status delivered actor.role) λ _ may.
      >>=_Post (deliver r (delivery_request ttn_number volume) actor o b.counters) λ written made.
        let (was, drives) = validate_transition-accepted o.status actor.role may in
        let moved = record written.0 { status = delivered } in
        let marks =
          Post_ok
            (deliver-Delivered r (delivery_request ttn_number volume) actor o b.counters drives)
            made in
        raise_if-Post
          (not (is_transport o.order_kind) && not (r.starts_trip k (approve r o.status moved)))
          validation
          (λ _. ends _ (
            o,
            (get_order-live k actor b o seen).0,
            was,
            drives,
            rw (approve-delivered r o.status moved refl) marks,
          ))

-- An order is delivered only by the driver it is assigned to and only after it was accepted; it
-- gets its volume, a waybill of the kind of its client, and the amount for that volume.
pub transition-Delivered :
    (r : Replies) (k : ℕ) (ttn_number : Option Text) (volume : Option ℕ) (actor : TokenUser)
    (b b' : Books) (o' : Order)
    → transition r k (delivery_request ttn_number volume) actor b ≡ ok (b', o')
    → (o : Order) × (lookup k b.orders ≡ some o)
      × (o.status ≡ accepted)
      × (is_driver actor.role ≡ true)
      × Delivered r actor (or_default volume o.volume_requested) o o'
transition-Delivered r k ttn_number volume actor b b' o' e =
    Post_ok (transition-delivers r k ttn_number volume actor b) e

-- A delivery of the ordered volume is billed at the amount that was expected.
pub final_amount_for-expected :
    (r : Replies) (o : Order) (expected : ℤ)
    → is_transport o.order_kind ≡ false
    → o.expected_amount ≡ some expected
    → final_amount_for r o o.volume_requested ≡ ok (some expected)
unfolding final_amount_for
final_amount_for-expected r o expected sold amount = ground arith
