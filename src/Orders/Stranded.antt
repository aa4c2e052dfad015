-- ===== src/Orders/Stranded.antt =====
-- A free order that a driver accepts through the change of its status.
use balt_oil.Orders.Deliveries.{delivery_request, transition-Delivered}
use balt_oil.Orders.Shapes.{get_order-live}
use balt_oil.Orders.Lifecycle.{approve, transition, validate_transition}
use balt_oil.Orders.Access.{get_order}
use balt_oil.Orders.Defs.{Replies, TransitionRequest}
use balt_oil.Payments.Defs.{Books, Order, OrderStatus, accepted}
use balt_oil.Text.{Text}
use balt_oil.Table.{lookup, lookup-put_self, put}
use balt_oil.Service.{>>=_Post, Post, Post_ok, TokenUser, ends, ok}
use balt_oil.Prelude.{Option, arith, none, refl, some, ℕ, ◌≡◌, ◌≢◌}

abbrev pub accept_request : TransitionRequest
accept_request = record {
  to_status = accepted;
  ttn_number = none;
  volume_delivered = none;
  rejection_reason = none;
}

approve-accepted :
    (r : Replies) (s : OrderStatus) (o : Order) → o.status ≡ accepted → approve r s o ≡ o
approve-accepted r s o is = ground arith

transition-accepts :
    (r : Replies) (k : ℕ) (actor : TokenUser) (b : Books)
    → Post
        (λ done.
          (o : Order) × (lookup k b.orders ≡ some o)
          × (done.1 ≡ record o { status = accepted })
          × (done.0.orders ≡ put k done.1 b.orders))
        (transition r k accept_request actor b)
unfolding transition
transition-accepts r k actor b = >>=_Post (get_order k actor b) λ o seen.
    >>=_Post (validate_transition o.status accepted actor.role) (λ _ may. ends _ (
      o,
      (get_order-live k actor b o seen).0,
      approve-accepted r o.status (record o { status = accepted }) refl,
      refl,
    ))

-- A driver who accepts a free order by `transition_status`, and not by `claim_order`, does not get
-- it: the order is accepted without a driver, and no driver can deliver it.
pub transition-stranded :
    (r r' : Replies) (k : ℕ) (actor actor' : TokenUser) (b b' : Books) (o o' : Order)
    (ttn_number : Option Text) (volume : Option ℕ)
    → lookup k b.orders ≡ some o
    → o.driver_id ≡ none
    → transition r k accept_request actor b ≡ ok (b', o')
    → (o'.status ≡ accepted)
      × (o'.driver_id ≡ none)
      × ((done : Books × Order)
          → transition r' k (delivery_request ttn_number volume) actor' b' ≢ ok done)
transition-stranded r r' k actor actor' b b' o o' ttn_number volume found free e =
    let (held, there, same, stored) = Post_ok (transition-accepts r k actor b) e in
    let this : held ≡ o = ground arith in
    let nobody : o'.driver_id ≡ none = rw (same, this) free in
    let kept : lookup k b'.orders ≡ some o' = rw stored (lookup-put_self k o' b.orders) in
    (
      rw same refl,
      nobody,
      λ done delivers.
          let (again, at_k, was, drives, marks) =
            transition-Delivered r' k ttn_number volume actor' b' done.0 done.1 delivers in
          let own = marks.0 in
          let it : again ≡ o' = ground arith in
          let driverless : again.driver_id ≡ none = rw it nobody in ground arith,
    )
