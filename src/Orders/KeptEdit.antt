-- ===== src/Orders/KeptEdit.antt =====
-- An edit, a creation and a deletion leave the statuses of the orders.
use balt_oil.Orders.Shapes.{get_order-live, recompute_expected_amount-standing, standing}
use balt_oil.Orders.Edit.{
  changed_keys, charge_delivery, check_update, edit_logged, edited, is_changed, is_recounted,
  is_settled_again, recount, replace_fields, settle_again, update_order,
}
use balt_oil.Orders.Customer.{
  UpdateRequest, is_priced_by_client, new_client, new_organization, switch_customer,
}
use balt_oil.Orders.Access.{get_order}
use balt_oil.Orders.Defs.{Replies, is_accepted}
use balt_oil.Prices.Tariffs.{is_individual_client}
use balt_oil.Payments.Ops.{get_paid_total, recomputed}
use balt_oil.Payments.Defs.{Books, Order, OrderPayment, OrderStatus}
use balt_oil.Table.{put}
use balt_oil.Service.{>>=_Post, Post, Post_ok, TokenUser, ends, if_Post, Post-weaken}
use balt_oil.Prelude.Int.{ℤ}
use balt_oil.Prelude.{
  Bool, Bool-cases, Option, Option-cases, false, inl, inr, none, not, or_default, refl, some, true,
  ℕ, ◌&&◌, ◌∙◌, ◌≡◌, ap,
}
use balt_oil.Orders.Kept.{with_ack-status}
use balt_oil.Orders.Progress.{Moved}

switch_customer-standing :
    (r : Replies) (owner : Option ℕ) (target : Option (Option ℕ)) (o : Order)
    → Post (λ o'. standing o' ≡ standing o) (switch_customer r owner target o)
switch_customer-standing r owner none o = ends _ refl
switch_customer-standing r owner (some target) o =
    if_Post (not (is_priced_by_client o.order_kind)) (ends _ refl) (
      >>=_Post (r.client_context (or_default owner o.client_id) target) λ ctx _.
        elim (Bool-cases (is_individual_client ctx.client_type)) [
          | inl person ↦ ends _ (rw person refl)
          | inr firm ↦ ends _ (rw firm refl)
        ])

charge_delivery-standing :
    (r : Replies) (u : UpdateRequest) (o : Order) → standing (charge_delivery r u o) ≡ standing o
unfolding charge_delivery
charge_delivery-standing r u o = elim (Option-cases u.delivery_cost) [
  | inl kept ↦ rw kept refl
  | inr (cost, typed_) ↦ rw typed_ refl
]

recount-standing :
    (r : Replies) (u : UpdateRequest) (before o : Order)
    → standing (recount r u before o) ≡ standing o
recount-standing r u before o = elim (Bool-cases (is_recounted u before)) [
  | inl counts ↦ rw counts (recompute_expected_amount-standing r o)
  | inr stays ↦ rw stays refl
]

settle_again-status :
    (paid_total : ℤ) (u : UpdateRequest) (before o : Order)
    → (settle_again paid_total u before o).status ≡ o.status
unfolding recomputed
settle_again-status paid_total u before o = elim (Bool-cases (is_settled_again u before)) [
  | inl settles ↦ rw settles refl
  | inr stays ↦ rw stays refl
]

replace_fields-standing :
    (actor : TokenUser) (u : UpdateRequest) (o : Order)
    → standing (replace_fields actor u o) ≡ standing o
unfolding replace_fields
replace_fields-standing actor u o = refl

-- The order of an edit before its payment status is counted again.
abbrev before_settling : Replies → UpdateRequest → Order → Order → Order
before_settling r u o switched =
    let charged = charge_delivery r u switched in
    recount r u o (record charged {
      allow_delivery_unpaid = or_default u.allow_delivery_unpaid charged.allow_delivery_unpaid;
    })

pub edited-settles :
    (r : Replies) (paid_total : ℤ) (u : UpdateRequest) (actor : TokenUser) (o : Order)
    → Post
        (λ done.
          (counted : Order) × (standing counted ≡ standing o)
          × (done.0 ≡ settle_again paid_total u o counted))
        (edited r paid_total u actor o)
unfolding edited
edited-settles r paid_total u actor o =
    >>=_Post (new_client r actor o (new_organization u o)) λ owner _.
      >>=_Post (switch_customer r owner (new_organization u o) (replace_fields actor u o))
        (λ switched done.
          let moved : standing switched ≡ standing o =
            Post_ok
              (switch_customer-standing r owner (new_organization u o) (replace_fields actor u o))
              done
            ∙ replace_fields-standing actor u o in
          ends _ (
            before_settling r u o switched,
            recount-standing r u o _ ∙ charge_delivery-standing r u switched ∙ moved,
            refl,
          ))

pub edited-status :
    (r : Replies) (paid_total : ℤ) (u : UpdateRequest) (actor : TokenUser) (o : Order)
    → Post (λ done. done.0.status ≡ o.status) (edited r paid_total u actor o)
edited-status r paid_total u actor o =
    Post-weaken
      (λ done (counted, same, settled). rw settled (
        settle_again-status paid_total u o counted
        ∙ ap (λ (p : OrderStatus × OrderPayment). p.0) same))
      (edited-settles r paid_total u actor o)

edit_logged-orders :
    (k : ℕ) (actor : TokenUser) (changed : Bool) (before o : Order) (b : Books)
    → (edit_logged k actor changed before o b).orders ≡ put k o b.orders
edit_logged-orders k actor false before o b = refl
edit_logged-orders k actor true before o b = refl

pub update_order-Moved :
    (r : Replies) (k : ℕ) (u : UpdateRequest) (actor : TokenUser) (b : Books)
    → Post (λ done. Moved k b.orders done.0.orders done.1) (update_order r k u actor b)
unfolding update_order
update_order-Moved r k u actor b = >>=_Post (get_order k actor b) λ o seen.
    >>=_Post (check_update r u actor o) λ _ may.
      >>=_Post (edited r (get_paid_total k b.payments) u actor o) (λ done made.
        let same =
          with_ack-status (is_accepted o.status && is_changed u o) actor (changed_keys u o done.1)
            done.0
          ∙ Post_ok (edited-status r (get_paid_total k b.payments) u actor o) made in
        ends _ (
          o,
          (get_order-live k actor b o seen).0,
          edit_logged-orders k actor (is_changed u o) o _ b,
          inl same,
        ))
