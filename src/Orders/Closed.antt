-- ===== src/Orders/Closed.antt =====
-- Orders that are delivered or cancelled, and orders that still can be.
use balt_oil.Orders.Sold.{sold, update_order-sold}
use balt_oil.Prelude.{
  Bool, Bool-cases, List, Option, [], any, arith, false, inl, inr, none, not, refl, some, true, ℕ,
  ◌&&◌, ◌++◌, ◌∷◌, ◌≡◌, ◌⊎◌, ap, ◌∙◌,
}
use balt_oil.Orders.Shapes.{approve-status, get_order-staff, get_order-live}
use balt_oil.Orders.Lifecycle.{
  allowed_roles, approve, reject, transition, transition_logged, validate_transition,
}
use balt_oil.Orders.Requests.{at_new_time, changes_of, noted, reschedule_order}
use balt_oil.Orders.Edit.{below_min, check_update, edited, unknown_fuel, update_order}
use balt_oil.Orders.Customer.{UpdateRequest, requested_fields, sent, other_fields}
use balt_oil.Orders.Create.{is_past}
use balt_oil.Orders.Permissions.{
  EditField, all_in, check_closed_order_edit, check_edit_permissions, is_frozen,
  is_manager_editable, e_fuel_type, e_volume_requested,
}
use balt_oil.Orders.Access.{get_order}
use balt_oil.Orders.Audit.{audit_diff}
use balt_oil.Orders.Defs.{Replies, RescheduleRequest, TransitionRequest, is_accepted, with_ack}
use balt_oil.Payments.Ops.{get_paid_total, live_order}
use balt_oil.Payments.Defs.{Books, ChangedKey, Order, OrderStatus, is_finished}
use balt_oil.Text.{Text}
use balt_oil.Table.{lookup, put}
use balt_oil.Service.{
  >>=_Post, Post, Post_ok, Role, TokenUser, ends, err, fails, forbidden, is_admin, is_driver,
  is_staff, manager, ok, raise_if-Post, validation,
}

abbrev pub cancel_request : Option Text → TransitionRequest
cancel_request reason = record {
  to_status = OrderStatus.cancelled;
  ttn_number = none;
  volume_delivered = none;
  rejection_reason = reason;
}

validate_transition-cancels :
    (s : OrderStatus) (role : Role)
    → is_staff role ≡ true
    → is_finished s ≡ false
    → validate_transition s OrderStatus.cancelled role ≡ ok tt
unfolding validate_transition allowed_roles
validate_transition-cancels s role staff unfinished = ground arith

-- A manager and an administrator can cancel every order that is neither closed nor archived.
pub transition-cancels :
    (r : Replies) (k : ℕ) (reason : Option Text) (actor : TokenUser) (b : Books) (o : Order)
    → live_order k b.orders ≡ some o
    → is_staff actor.role ≡ true
    → is_finished o.status ≡ false
    → (b' : Books) × (o' : Order) × (transition r k (cancel_request reason) actor b ≡ ok (b', o'))
      × (o'.status ≡ OrderStatus.cancelled)
unfolding transition
transition-cancels r k reason actor b o live staff unfinished =
    let moved = record (reject OrderStatus.cancelled reason o) { status = OrderStatus.cancelled } in
    let seen = get_order-staff k actor b o live staff in
    let may = validate_transition-cancels o.status actor.role staff unfinished in
    (
      record (transition_logged k actor o.status OrderStatus.cancelled b) {
        orders = put k (approve r o.status moved) b.orders;
      },
      approve r o.status moved,
      rw (seen, may) refl,
      approve-status r o.status moved,
    )

check_update-may :
    (r : Replies) (u : UpdateRequest) (actor : TokenUser) (o : Order)
    → Post
        (λ done. check_edit_permissions o actor (requested_fields u) ≡ ok tt)
        (check_update r u actor o)
unfolding check_update
check_update-may r u actor o =
    >>=_Post (check_edit_permissions o actor (requested_fields u)) λ _ may.
      raise_if-Post (not (is_staff actor.role) && below_min u.volume_requested) validation λ _.
        raise_if-Post (unknown_fuel r u.fuel_type) validation λ _.
          elim (Bool-cases (is_past r.now u.desired_date)) [
            | inl past ↦ rw past (fails validation)
            | inr later ↦ rw later (ends tt may)
          ]

update_order-may :
    (r : Replies) (k : ℕ) (u : UpdateRequest) (actor : TokenUser) (b : Books)
    → Post
        (λ done.
          (o : Order) × (get_order k actor b ≡ ok o)
          × (check_edit_permissions o actor (requested_fields u) ≡ ok tt))
        (update_order r k u actor b)
unfolding update_order
update_order-may r k u actor b = >>=_Post (get_order k actor b) λ o seen.
    >>=_Post (check_update r u actor o) λ _ checked.
      >>=_Post (edited r (get_paid_total k b.payments) u actor o)
        (λ done made. ends _ (o, seen, Post_ok (check_update-may r u actor o) checked))

check_edit_permissions-closed :
    (o : Order) (actor : TokenUser) (fields : List EditField)
    → is_finished o.status ≡ true
    → check_edit_permissions o actor fields ≡ ok tt
    → (is_staff actor.role ≡ true)
      × (any is_frozen fields ≡ false)
      × ((is_admin actor.role ≡ true) ⊎ (all_in is_manager_editable fields ≡ true))
unfolding check_edit_permissions check_closed_order_edit
check_edit_permissions-closed o actor fields closed may = ground arith

module _ {ℓ} {A : Type ℓ} (p : A → Bool) where
  any_left : (xs ys : List A) → any p (xs ++ ys) ≡ false → any p xs ≡ false
  any_left [] ys h = refl
  any_left (x ∷ xs) ys h = ground (arith, any_left xs ys)

  any_right : (xs ys : List A) → any p (xs ++ ys) ≡ false → any p ys ≡ false
  any_right [] ys h = h
  any_right (x ∷ xs) ys h = ground (arith, any_right xs ys)

sent_frozen :
    (field : EditField) (value : Option ℕ)
    → is_frozen field ≡ true
    → any is_frozen (sent field value) ≡ false
    → value ≡ none
sent_frozen field none frozen h = refl
sent_frozen field (some value) frozen h = ground arith

requested_fields-frozen :
    (u : UpdateRequest)
    → any is_frozen (requested_fields u) ≡ false
    → (u.fuel_type ≡ none) × (u.volume_requested ≡ none)
unfolding requested_fields
requested_fields-frozen u h =
    let fuel = sent e_fuel_type u.fuel_type in
    let volume = sent e_volume_requested u.volume_requested in
    let rest = any_right is_frozen fuel (volume ++ other_fields u) h in
    (
      sent_frozen e_fuel_type u.fuel_type refl
          (any_left is_frozen fuel (volume ++ other_fields u) h),
      sent_frozen e_volume_requested u.volume_requested refl
          (any_left is_frozen volume (other_fields u) rest),
    )

-- An edit of a closed order that ends well comes from the staff, names neither the fuel nor the
-- volume, leaves both and the status as they were, and names at most the organization unless it
-- comes from an administrator.
pub update_order-finished :
    (r : Replies) (k : ℕ) (u : UpdateRequest) (actor : TokenUser) (b b' : Books) (o o' : Order)
    → lookup k b.orders ≡ some o
    → is_finished o.status ≡ true
    → update_order r k u actor b ≡ ok (b', o')
    → (is_staff actor.role ≡ true)
      × (u.fuel_type ≡ none)
      × (u.volume_requested ≡ none)
      × ((is_admin actor.role ≡ true) ⊎ (all_in is_manager_editable (requested_fields u) ≡ true))
      × (o'.status ≡ o.status)
      × (o'.fuel_type ≡ o.fuel_type)
      × (o'.volume_requested ≡ o.volume_requested)
update_order-finished r k u actor b b' o o' found closed e =
    let (seen_order, seen, may) = Post_ok (update_order-may r k u actor b) e in
    let held = (get_order-live k actor b seen_order seen).0 in
    let same : seen_order ≡ o = ground arith in
    let (staff, thawed, who) =
      check_edit_permissions-closed o actor (requested_fields u) closed (rw same at may) in
    let (fuel, volume) = requested_fields-frozen u thawed in
    let (old, found', left) = Post_ok (update_order-sold u fuel volume r k actor b) e in
    let same' : old ≡ o = ground arith in
    let unsold : sold o' ≡ sold o = left ∙ ap sold same' in
    (
      staff,
      fuel,
      volume,
      who,
      ap (λ (p : OrderStatus × ℕ × ℕ). p.0) unsold,
      ap (λ (p : OrderStatus × ℕ × ℕ). p.1) unsold,
      ap (λ (p : OrderStatus × ℕ × ℕ). p.2) unsold,
    )

with_ack-date :
    (was_accepted : Bool) (actor : TokenUser) (keys : List ChangedKey) (o : Order)
    → (with_ack was_accepted actor keys o).desired_date ≡ o.desired_date
with_ack-date was_accepted actor keys o =
    elim (Bool-cases (was_accepted && not (is_driver actor.role))) [
      | inl asks ↦ rw asks refl
      | inr silent ↦ rw silent refl
    ]

-- A request for a new date, and nothing else.
abbrev pub date_only : ℕ → UpdateRequest
date_only date = record {
  manager_comment = none;
  desired_date = some date;
  driver_id = none;
  expected_amount = none;
  final_amount = none;
  trade_credit_contract_signed = none;
  delivery_address = none;
  fuel_type = none;
  volume_requested = none;
  payment_type = none;
  client_comment = none;
  contact_person_name = none;
  contact_person_phone = none;
  delivery_cost = none;
  allow_delivery_unpaid = none;
  organization_id = none;
}

check_update-closed :
    (r : Replies) (date : ℕ) (actor : TokenUser) (o : Order)
    → actor.role ≡ manager
    → is_finished o.status ≡ true
    → check_update r (date_only date) actor o ≡ err forbidden
unfolding check_update check_edit_permissions check_closed_order_edit requested_fields
check_update-closed r date actor o manages closed = rw (manages, closed) refl

-- A new date goes through `reschedule_order` whatever the status is, by the same manager whom
-- `update_order` refuses it on a closed order.
pub reschedule_order-finished :
    (r : Replies) (k : ℕ) (date : ℕ) (actor : TokenUser) (b : Books) (o : Order)
    → live_order k b.orders ≡ some o
    → actor.role ≡ manager
    → is_finished o.status ≡ true
    → ((b' : Books) × (o' : Order) × (reschedule_order k
            (record { desired_date = some date; driver_id = none })
            actor
            b
          ≡ ok (b', o'))
        × (o'.desired_date ≡ some date))
      × (update_order r k (date_only date) actor b ≡ err forbidden)
unfolding reschedule_order update_order
reschedule_order-finished r k date actor b o live manages closed =
    let seen = get_order-staff k actor b o live (rw manages refl) in
    let request : RescheduleRequest = record { desired_date = some date; driver_id = none } in
    let o' = with_ack (is_accepted o.status) actor (changes_of request) (at_new_time request o) in
    let b' = noted k actor o' b in
    (
      (
        record b' { audit_logs = b.audit_logs ++ audit_diff k actor o o' },
        o',
        rw seen refl,
        with_ack-date (is_accepted o.status) actor (changes_of request) (at_new_time request o),
      ),
      rw (seen, check_update-closed r date actor o manages closed) refl,
    )
