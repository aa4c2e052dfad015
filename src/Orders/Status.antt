-- ===== src/Orders/Status.antt =====
-- The payment status of an order that is edited.
use balt_oil.Orders.KeptEdit.{edited-settles}
use balt_oil.Orders.Shapes.{get_order-live}
use balt_oil.Orders.Edit.{
  changed_keys, check_update, edited, is_changed, is_settled_again, settle_again, update_order,
}
use balt_oil.Orders.Customer.{UpdateRequest}
use balt_oil.Orders.Access.{get_order}
use balt_oil.Orders.Defs.{Replies, is_accepted, with_ack}
use balt_oil.Payments.Ops.{compute_payment_status, get_paid_total, recomputed}
use balt_oil.Payments.Defs.{Books, ChangedKey, Order, OrderPayment, OrderStatus}
use balt_oil.Table.{lookup}
use balt_oil.Service.{>>=_Post, Post, Post_ok, TokenUser, ends, is_driver, ok}
use balt_oil.Prelude.Int.{ℤ}
use balt_oil.Prelude.{
  Bool, Bool-cases, List, ap, arith, if◌then◌else◌, inl, inr, not, refl, some, ℕ, ◌&&◌, ◌≡◌,
}

-- The payment status that an edit leaves, if the paid sum is this one.
abbrev pub Recounted : ℤ → UpdateRequest → Order → Order → Type 0
Recounted paid_total u o o' = o'.payment_status ≡ (
    if is_settled_again u o
    then compute_payment_status paid_total o'.expected_amount o'.final_amount
    else o.payment_status)

settle_again-Recounted :
    (paid_total : ℤ) (u : UpdateRequest) (o counted : Order)
    → counted.payment_status ≡ o.payment_status
    → Recounted paid_total u o (settle_again paid_total u o counted)
unfolding recomputed
settle_again-Recounted paid_total u o counted same = elim (Bool-cases (is_settled_again u o)) [
  | inl settles ↦ rw settles refl
  | inr stays ↦ rw stays same
]

with_ack-Recounted :
    (paid_total : ℤ) (u : UpdateRequest) (was_accepted : Bool) (actor : TokenUser)
    (keys : List ChangedKey) (o o' : Order)
    → Recounted paid_total u o o'
    → Recounted paid_total u o (with_ack was_accepted actor keys o')
with_ack-Recounted paid_total u was_accepted actor keys o o' h =
    elim (Bool-cases (was_accepted && not (is_driver actor.role))) [
      | inl asks ↦ rw asks h
      | inr silent ↦ rw silent h
    ]

update_order-Recounted :
    (r : Replies) (k : ℕ) (u : UpdateRequest) (actor : TokenUser) (b : Books)
    → Post
        (λ done.
          (o : Order) × (lookup k b.orders ≡ some o)
          × Recounted (get_paid_total k b.payments) u o done.1)
        (update_order r k u actor b)
unfolding update_order
update_order-Recounted r k u actor b =
    let total = get_paid_total k b.payments in
    >>=_Post (get_order k actor b) λ o seen. >>=_Post (check_update r u actor o) λ _ may.
      >>=_Post (edited r total u actor o) (λ done made.
        let (counted, same, settled) = Post_ok (edited-settles r total u actor o) made in
        let fine : Recounted total u o done.0 = rw settled (
          settle_again-Recounted total u o counted
            (ap (λ (p : OrderStatus × OrderPayment). p.1) same)) in
        ends _ (
          o,
          (get_order-live k actor b o seen).0,
          with_ack-Recounted total u (is_accepted o.status && is_changed u o) actor
              (changed_keys u o done.1) o done.0 fine,
        ))

-- An edit counts the payment status again exactly when it moves the final amount: then it is the
-- status of the paid sum against the new amounts, and otherwise it stays, whatever else changes.
pub update_order-payment_status :
    (r : Replies) (k : ℕ) (u : UpdateRequest) (actor : TokenUser) (b b' : Books) (o o' : Order)
    → lookup k b.orders ≡ some o
    → update_order r k u actor b ≡ ok (b', o')
    → Recounted (get_paid_total k b.payments) u o o'
update_order-payment_status r k u actor b b' o o' found e =
    let (held, there, fine) = Post_ok (update_order-Recounted r k u actor b) e in
    let same : o ≡ held = ground arith in rw same fine
