-- ===== src/Orders/Shapes.antt =====
-- What a successful request of an order reads and writes.
use balt_oil.Orders.Lifecycle.{transition, validate_transition, approve, deliver, reject}
use balt_oil.Orders.Amounts.{
  recompute_expected_amount, recounted, fuel_subtotal_for, zone_cost, unless_raised,
}
use balt_oil.Orders.Access.{get_order}
use balt_oil.Orders.Defs.{Replies, TransitionRequest, is_awaiting, is_new, is_transport}
use balt_oil.Payments.Ops.{live_order}
use balt_oil.Payments.Defs.{Books, Order, OrderStatus, is_delivered, OrderPayment}
use balt_oil.Table.{lookup, put}
use balt_oil.Service.{
  TokenUser, ok, >>=_Post, Post, raise_if-Post, ends, Result, fails, validation, is_staff,
}
use balt_oil.Prelude.{
  Option-cases, arith, false, inl, inr, some, ℕ, ◌≡◌, Bool-cases, is_some, not, refl, ◌&&◌,
  if◌then◌else◌, none, true, ap,
}

pub get_order-staff :
    (k : ℕ) (actor : TokenUser) (b : Books) (o : Order)
    → live_order k b.orders ≡ some o
    → is_staff actor.role ≡ true
    → get_order k actor b ≡ ok o
unfolding get_order
get_order-staff k actor b o live staff = ground arith

-- The order that `get_order` gives is in the table and not archived.
pub get_order-live :
    (k : ℕ) (actor : TokenUser) (b : Books) (o : Order)
    → get_order k actor b ≡ ok o
    → (lookup k b.orders ≡ some o) × (o.is_archived ≡ false)
unfolding get_order
get_order-live k actor b o e = elim (Option-cases (lookup k b.orders)) [
  | inl missing ↦ absurd (ground arith)
  | inr (a, found) ↦ ground arith
]

-- What an edit of the amounts leaves as it is.
abbrev pub standing : Order → OrderStatus × OrderPayment
standing o = (o.status, o.payment_status)

recounted-standing :
    (r : Replies) (o : Order) → Post (λ o'. standing o' ≡ standing o) (recounted r o)
unfolding recounted
recounted-standing r o = >>=_Post (r.client_context o.client_id o.organization_id) λ ctx _.
    >>=_Post (fuel_subtotal_for r ctx o o.volume_requested) λ expected _.
      >>=_Post
        (if o.delivery_cost_is_manual
          then ok none
          else zone_cost r ctx o.volume_requested o.delivery_lat o.delivery_lon)
        (λ zone _. ends _ refl)

unless_raised-standing :
    (o : Order) (m : Result Order)
    → Post (λ o'. standing o' ≡ standing o) m
    → standing (unless_raised o m) ≡ standing o
unless_raised-standing o _ (fails e) = refl
unless_raised-standing o _ (ends done same) = same

pub recompute_expected_amount-standing :
    (r : Replies) (o : Order) → standing (recompute_expected_amount r o) ≡ standing o
unfolding recompute_expected_amount
recompute_expected_amount-standing r o =
    unless_raised-standing o (recounted r o) (recounted-standing r o)

pub approve-status : (r : Replies) (s : OrderStatus) (o : Order) → (approve r s o).status ≡ o.status
approve-status r s o =
    elim (Bool-cases (is_awaiting s && is_new o.status && not (is_some o.expected_amount))) [
      | inl needed ↦
          rw needed
            (ap (λ (p : OrderStatus × OrderPayment). p.0) (recompute_expected_amount-standing r o))
      | inr plain ↦ rw plain refl
    ]

-- What a transition of an order does to the books: `o` before, `o'` after.
abbrev pub Transitioned : ℕ → OrderStatus → TokenUser → Books → Order → Books → Order → Type 0
Transitioned k to_status actor b o b' o' =
    (get_order k actor b ≡ ok o)
    × (validate_transition o.status to_status actor.role ≡ ok tt)
    × (o'.status ≡ to_status)
    × (b'.orders ≡ put k o' b.orders)
    × (b'.payments ≡ b.payments)
    × (b'.keys ≡ b.keys)

pub transition-Transitioned :
    (r : Replies) (k : ℕ) (request : TransitionRequest) (actor : TokenUser) (b : Books)
    → Post
        (λ done. (o : Order) × Transitioned k request.to_status actor b o done.0 done.1)
        (transition r k request actor b)
unfolding transition
transition-Transitioned r k request actor b = >>=_Post (get_order k actor b) λ o seen.
    >>=_Post (validate_transition o.status request.to_status actor.role) λ _ may.
      >>=_Post
        (if is_delivered request.to_status
          then deliver r request actor o b.counters
          else ok (o, b.counters))
        λ written _.
          let o' =
            approve r o.status
              (record (reject request.to_status request.rejection_reason written.0) {
                status = request.to_status;
              }) in
          raise_if-Post
            (is_delivered request.to_status
              && not (is_transport o.order_kind)
              && not (r.starts_trip k o'))
            validation (λ _. ends _ (o, (seen, may, approve-status r o.status _, refl, refl, refl)))
