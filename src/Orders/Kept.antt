-- ===== src/Orders/Kept.antt =====
-- Each request of an order moves it along the graph of the statuses, or leaves its status.
use balt_oil.Orders.Progress.{Moved, Keeps, Moved-Keeps, same-Keeps, validate_transition-edge}
use balt_oil.Orders.Shapes.{get_order-live, transition-Transitioned}
use balt_oil.Orders.Lifecycle.{
  claim_order, claimable, transition, transition_claim, transition_status,
}
use balt_oil.Orders.Requests.{
  ack_changes, ack_comment, archive_order, changes_of, reschedule_order, set_shipment_override,
  at_new_time,
}
use balt_oil.Orders.Access.{get_order}
use balt_oil.Orders.Defs.{
  Replies, RescheduleRequest, ShipmentMode, TransitionRequest, is_accepted, with_ack,
}
use balt_oil.Payments.Ops.{live_order}
use balt_oil.Payments.Defs.{Books, ChangedKey, Order}
use balt_oil.Table.{lookup, put}
use balt_oil.Service.{
  >>=_Post, Post, TokenUser, ends, forbidden, is_driver, is_staff, not_found, or_raise-Post,
  raise_if-Post, validation, Post-weaken, Post_ok, ok,
}
use balt_oil.Prelude.{
  Bool, Bool-cases, List, arith, inl, inr, is_some, not, refl, true, ℕ, ◌&&◌, ◌≡◌, Option,
  Option-cases, none, some,
}

transition-Moved :
    (r : Replies) (k : ℕ) (request : TransitionRequest) (actor : TokenUser) (b : Books)
    → Post (λ done. Moved k b.orders done.0.orders done.1) (transition r k request actor b)
transition-Moved r k request actor b =
    Post-weaken
      (λ done (o, (seen, may, to, stored, payments, keys)).
        let edge = validate_transition-edge o.status request.to_status actor.role may in
        (o, (get_order-live k actor b o seen).0, stored, inr (rw to edge)))
      (transition-Transitioned r k request actor b)

pub transition_status-Keeps :
    (r : Replies) (k j : ℕ) (request : TransitionRequest) (actor : TokenUser) (key : Option ℕ)
    (b b' : Books) (o : Order)
    → transition_status r k request actor key b ≡ ok (b', o)
    → Keeps j b.orders b'.orders
unfolding transition_status
transition_status-Keeps r k j request actor none b b' o e =
    Moved-Keeps j k b.orders b'.orders o (Post_ok (transition-Moved r k request actor b) e)
transition_status-Keeps r k j request actor (some key) b b' o e =
    elim (Option-cases (lookup key b.keys)) [
      | inl fresh ↦
          let c = record b { keys = put key (transition_claim k) b.keys } in
          let made : transition r k request actor c ≡ ok (b', o) = ground arith in
          Moved-Keeps j k b.orders b'.orders o (Post_ok (transition-Moved r k request actor c) made)
      | inr (claimed, used) ↦ same-Keeps j b.orders b'.orders (ground arith)
    ]

pub claim_order-Moved :
    (k : ℕ) (actor : TokenUser) (b : Books)
    → Post (λ done. Moved k b.orders done.0.orders done.1) (claim_order k actor b)
unfolding claim_order
claim_order-Moved k actor b = raise_if-Post (not (is_driver actor.role)) forbidden λ _.
    or_raise-Post (claimable k b) not_found
      (λ o found. ends _ (o, ground arith, refl, inr (ground arith)))

pub ack_changes-Moved :
    (k : ℕ) (actor : TokenUser) (b : Books)
    → Post (λ done. Moved k b.orders done.0.orders done.1) (ack_changes k actor b)
unfolding ack_changes
ack_changes-Moved k actor b = raise_if-Post (not (is_driver actor.role)) forbidden λ _.
    >>=_Post (get_order k actor b)
      (λ o seen. ends _ (o, (get_order-live k actor b o seen).0, refl, inl refl))

pub ack_comment-Moved :
    (r : Replies) (k : ℕ) (actor : TokenUser) (b : Books)
    → Post (λ done. Moved k b.orders done.0.orders done.1) (ack_comment r k actor b)
unfolding ack_comment
ack_comment-Moved r k actor b = raise_if-Post (not (is_driver actor.role)) forbidden λ _.
    >>=_Post (get_order k actor b)
      (λ o seen. ends _ (o, (get_order-live k actor b o seen).0, refl, inl refl))

pub set_shipment_override-Moved :
    (k : ℕ) (mode : ShipmentMode) (actor : TokenUser) (b : Books)
    → Post (λ done. Moved k b.orders done.0.orders done.1) (set_shipment_override k mode actor b)
unfolding set_shipment_override
set_shipment_override-Moved k mode actor b =
    raise_if-Post (not (is_staff actor.role)) forbidden λ _.
      >>=_Post (get_order k actor b)
        (λ o seen. ends _ (o, (get_order-live k actor b o seen).0, refl, inl refl))

pub with_ack-status :
    (accepted_ : Bool) (actor : TokenUser) (keys : List ChangedKey) (o : Order)
    → (with_ack accepted_ actor keys o).status ≡ o.status
with_ack-status accepted_ actor keys o =
    elim (Bool-cases (accepted_ && not (is_driver actor.role))) [
      | inl asks ↦ rw asks refl
      | inr silent ↦ rw silent refl
    ]

pub reschedule_order-Moved :
    (k : ℕ) (request : RescheduleRequest) (actor : TokenUser) (b : Books)
    → Post (λ done. Moved k b.orders done.0.orders done.1) (reschedule_order k request actor b)
unfolding reschedule_order
reschedule_order-Moved k request actor b = >>=_Post (get_order k actor b) λ o seen.
    raise_if-Post (not (is_some request.desired_date) && not (is_some request.driver_id)) validation
      λ _. raise_if-Post (is_some request.driver_id && not (is_staff actor.role)) forbidden (λ _.
        ends _ (
          o,
          (get_order-live k actor b o seen).0,
          refl,
          inl (
              with_ack-status (is_accepted o.status) actor (changes_of request)
                (at_new_time request o)),
        ))

pub archive_order-Moved :
    (r : Replies) (k : ℕ) (actor : TokenUser) (b : Books)
    → Post
        (λ b'. (o' : Order) × Moved k b.orders b'.orders o' × (o'.is_archived ≡ true))
        (archive_order r k actor b)
unfolding archive_order
archive_order-Moved r k actor b = raise_if-Post (not (is_staff actor.role)) forbidden λ _.
    or_raise-Post (live_order k b.orders) not_found
      (λ o live. ends _ (_, (o, ground arith, refl, inl refl), refl))
