-- ===== src/Orders/Claims.antt =====
-- Who takes an order: one driver, once.
use balt_oil.Orders.Shapes.{transition-Transitioned}
use balt_oil.Orders.Lifecycle.{claim_order, transition, transition_status, transition_claim}
use balt_oil.Orders.Access.{get_order}
use balt_oil.Orders.Defs.{Replies, TransitionRequest}
use balt_oil.Payments.Ops.{live_order}
use balt_oil.Payments.Defs.{Books, Order, accepted, IdempotencyKey}
use balt_oil.Table.{lookup, lookup-put_self, put}
use balt_oil.Service.{TokenUser, err, is_driver, not_found, ok, ◌>>=◌, Post_ok}
use balt_oil.Prelude.{Option-cases, arith, inl, inr, some, true, ℕ, ◌≡◌, refl}

-- Once a driver has claimed an order, every further claim of it fails, and the order is accepted by
-- that driver.
pub claim_order_once :
    (k : ℕ) (actor actor' : TokenUser) (b b' : Books) (o : Order)
    → claim_order k actor b ≡ ok (b', o)
    → is_driver actor'.role ≡ true
    → (lookup k b'.orders ≡ some o)
      × (o.driver_id ≡ some actor.id)
      × (o.status ≡ accepted)
      × (claim_order k actor' b' ≡ err not_found)
unfolding claim_order
claim_order_once k actor actor' b b' o e may = elim (Option-cases (live_order k b.orders)) [
  | inl missing ↦ absurd (ground arith)
  | inr (before, found) ↦
      let stored : b'.orders ≡ put k o b.orders = ground arith in
      let there : lookup k b'.orders ≡ some o = rw stored (lookup-put_self k o b.orders) in
      (there, ground arith, ground arith, ground arith)
]

transition_status-used :
    (r : Replies) (j key : ℕ) (request : TransitionRequest) (actor : TokenUser) (b : Books)
    (claimed : IdempotencyKey)
    → lookup key b.keys ≡ some claimed
    → transition_status r j request actor (some key) b
      ≡ (get_order j actor b >>= λ (seen : Order). ok (b, seen))
unfolding transition_status
transition_status-used r j key request actor b claimed used = rw (used, transition_status) refl

-- Once a transition with a key has succeeded, whatever is asked under that key, of whatever order,
-- answers with the order as it is to whoever may see it, and leaves the books as they are.
pub transition_status_again :
    (r r' : Replies) (k j key : ℕ) (request request' : TransitionRequest) (actor actor' : TokenUser)
    (b b' : Books) (o : Order)
    → transition_status r k request actor (some key) b ≡ ok (b', o)
    → transition_status r' j request' actor' (some key) b'
      ≡ (get_order j actor' b' >>= λ (seen : Order). ok (b', seen))
unfolding transition_status
transition_status_again r r' k j key request request' actor actor' b b' o e =
    elim (Option-cases (lookup key b.keys)) [
      | inl fresh ↦
          let c = record b { keys = put key (transition_claim k) b.keys } in
          let made : transition r k request actor c ≡ ok (b', o) = ground arith in
          let (before, (seen, may, to, orders, payments, keys)) =
            Post_ok (transition-Transitioned r k request actor c) made in
          transition_status-used r' j key request' actor' b' (transition_claim k)
            (rw keys (lookup-put_self key (transition_claim k) b.keys))
      | inr (claimed, used) ↦
          let same : b' ≡ b = ground arith in
          transition_status-used r' j key request' actor' b' claimed (rw same used)
    ]
