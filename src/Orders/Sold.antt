-- ===== src/Orders/Sold.antt =====
-- What an edit that names neither fuel nor volume leaves of an order.
use balt_oil.Orders.Edit.{
  changed_keys, charge_delivery, check_update, edited, is_changed, is_recounted, is_settled_again,
  recount, replace_fields, settle_again, update_order,
}
use balt_oil.Orders.Customer.{
  UpdateRequest, is_priced_by_client, new_client, new_organization, switch_customer,
}
use balt_oil.Orders.Access.{get_order}
use balt_oil.Orders.Amounts.{
  fuel_subtotal_for, recompute_expected_amount, recounted, unless_raised, zone_cost,
}
use balt_oil.Orders.Defs.{Replies, is_accepted, with_ack}
use balt_oil.Prices.Tariffs.{is_individual_client}
use balt_oil.Payments.Ops.{get_paid_total, recomputed}
use balt_oil.Payments.Defs.{Books, ChangedKey, Order, OrderStatus}
use balt_oil.Service.{
  >>=_Post, Post, Post_ok, Result, TokenUser, ends, fails, if_Post, is_driver, ok,
}
use balt_oil.Prelude.Int.{ℤ}
use balt_oil.Prelude.{
  Bool, Bool-cases, List, Option, Option-cases, if◌then◌else◌, inl, inr, none, not, or_default,
  refl, some, ℕ, ◌&&◌, ◌∙◌, ◌≡◌,
}

abbrev pub sold : Order → OrderStatus × ℕ × ℕ
sold o = (o.status, o.fuel_type, o.volume_requested)

recounted-sold : (r : Replies) (o : Order) → Post (λ o'. sold o' ≡ sold o) (recounted r o)
unfolding recounted
recounted-sold r o = >>=_Post (r.client_context o.client_id o.organization_id) λ ctx _.
    >>=_Post (fuel_subtotal_for r ctx o o.volume_requested) λ expected _.
      >>=_Post
        (if o.delivery_cost_is_manual
          then ok none
          else zone_cost r ctx o.volume_requested o.delivery_lat o.delivery_lon)
        (λ zone _. ends _ refl)

unless_raised-sold :
    (o : Order) (m : Result Order)
    → Post (λ o'. sold o' ≡ sold o) m
    → sold (unless_raised o m) ≡ sold o
unless_raised-sold o _ (fails e) = refl
unless_raised-sold o _ (ends done same) = same

recompute_expected_amount-sold :
    (r : Replies) (o : Order) → sold (recompute_expected_amount r o) ≡ sold o
unfolding recompute_expected_amount
recompute_expected_amount-sold r o = unless_raised-sold o (recounted r o) (recounted-sold r o)

switch_customer-sold :
    (r : Replies) (owner : Option ℕ) (target : Option (Option ℕ)) (o : Order)
    → Post (λ o'. sold o' ≡ sold o) (switch_customer r owner target o)
switch_customer-sold r owner none o = ends _ refl
switch_customer-sold r owner (some target) o =
    if_Post (not (is_priced_by_client o.order_kind)) (ends _ refl) (
      >>=_Post (r.client_context (or_default owner o.client_id) target) λ ctx _.
        elim (Bool-cases (is_individual_client ctx.client_type)) [
          | inl person ↦ ends _ (rw person refl)
          | inr firm ↦ ends _ (rw firm refl)
        ])

charge_delivery-sold :
    (r : Replies) (u : UpdateRequest) (o : Order) → sold (charge_delivery r u o) ≡ sold o
unfolding charge_delivery
charge_delivery-sold r u o = elim (Option-cases u.delivery_cost) [
  | inl kept ↦ rw kept refl
  | inr (cost, typed_) ↦ rw typed_ refl
]

recount-sold :
    (r : Replies) (u : UpdateRequest) (before o : Order) → sold (recount r u before o) ≡ sold o
recount-sold r u before o = elim (Bool-cases (is_recounted u before)) [
  | inl counts ↦ rw counts (recompute_expected_amount-sold r o)
  | inr stays ↦ rw stays refl
]

settle_again-sold :
    (paid_total : ℤ) (u : UpdateRequest) (before o : Order)
    → sold (settle_again paid_total u before o) ≡ sold o
unfolding recomputed
settle_again-sold paid_total u before o = elim (Bool-cases (is_settled_again u before)) [
  | inl settles ↦ rw settles refl
  | inr stays ↦ rw stays refl
]

with_ack-sold :
    (accepted_ : Bool) (actor : TokenUser) (keys : List ChangedKey) (o : Order)
    → sold (with_ack accepted_ actor keys o) ≡ sold o
with_ack-sold accepted_ actor keys o = elim (Bool-cases (accepted_ && not (is_driver actor.role))) [
  | inl asks ↦ rw asks refl
  | inr silent ↦ rw silent refl
]

module _ (u : UpdateRequest) (no_fuel : u.fuel_type ≡ none)
    (no_volume : u.volume_requested ≡ none) where
  replace_fields-sold : (actor : TokenUser) (o : Order) → sold (replace_fields actor u o) ≡ sold o
  unfolding replace_fields
  replace_fields-sold actor o = rw (no_fuel, no_volume) refl

  edited-sold :
      (r : Replies) (paid_total : ℤ) (actor : TokenUser) (o : Order)
      → Post (λ done. sold done.0 ≡ sold o) (edited r paid_total u actor o)
  unfolding edited
  edited-sold r paid_total actor o =
      let moved = replace_fields actor u o in
      >>=_Post (new_client r actor o (new_organization u o)) λ owner _.
        >>=_Post (switch_customer r owner (new_organization u o) moved) λ switched done.
          let charged = charge_delivery r u switched in
          ends _ (
            settle_again-sold paid_total u o _
            ∙ recount-sold r u o _
            ∙ charge_delivery-sold r u switched
            ∙ Post_ok (switch_customer-sold r owner (new_organization u o) moved) done
            ∙ replace_fields-sold actor o)

  pub update_order-sold :
      (r : Replies) (k : ℕ) (actor : TokenUser) (b : Books)
      → Post
          (λ done. (o : Order) × (get_order k actor b ≡ ok o) × (sold done.1 ≡ sold o))
          (update_order r k u actor b)
  unfolding update_order
  update_order-sold r k actor b = >>=_Post (get_order k actor b) λ o seen.
      >>=_Post (check_update r u actor o) λ _ may.
        >>=_Post (edited r (get_paid_total k b.payments) u actor o) λ done made. ends _ (
          o,
          seen,
          with_ack-sold (is_accepted o.status && is_changed u o) actor (changed_keys u o done.1)
                done.0
              ∙ Post_ok (edited-sold r (get_paid_total k b.payments) actor o) made,
        )
