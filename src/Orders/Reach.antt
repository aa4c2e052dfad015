-- ===== src/Orders/Reach.antt =====
-- The life cycle of the orders over all requests of order_service.
use balt_oil.Payments.Totals.{pay-stores}
use balt_oil.Payments.Gate.{is_used, record_payment-pays, record_payment-used}
use balt_oil.Payments.Settled.{BooksStep, create_invoice-stores, invoiced, recorded, withdrawn}
use balt_oil.Orders.KeptEdit.{update_order-Moved}
use balt_oil.Orders.Kept.{
  ack_changes-Moved, ack_comment-Moved, archive_order-Moved, claim_order-Moved,
  reschedule_order-Moved, set_shipment_override-Moved, transition_status-Keeps,
}
use balt_oil.Orders.Progress.{
  Keeps, Moved-Keeps, StatusPath, StatusPath-Near, new-Keeps, removed-Keeps, same-Keeps, stay,
}
use balt_oil.Orders.Lifecycle.{claim_order, transition_status}
use balt_oil.Orders.Requests.{
  ack_changes, ack_comment, archive_order, hard_delete_order, reschedule_order,
  set_shipment_override,
}
use balt_oil.Orders.Edit.{update_order}
use balt_oil.Orders.Customer.{UpdateRequest}
use balt_oil.Orders.Create.{
  CreateRequest, check_create, client_for, create_order, is_past, normalize_delivery_address,
  payment_for,
}
use balt_oil.Orders.Amounts.{expected_amount_for}
use balt_oil.Orders.Defs.{Replies, RescheduleRequest, ShipmentMode, TransitionRequest}
use balt_oil.Payments.Ops.{cancel_payment, get_paid_total, recompute_and_save, recomputed}
use balt_oil.Payments.Defs.{Books, Order, is_cancelled}
use balt_oil.Text.{Text}
use balt_oil.Table.{lookup}
use balt_oil.Service.{
  >>=_Post, Post, Post_ok, TokenUser, ends, forbidden, if_Post, is_admin, is_staff, not_found, ok,
  or_raise-Post, raise_if-Post, validation,
}
use balt_oil.Prelude.Int.{ℤ}
use balt_oil.Prelude.{
  Bool-cases, Option, inl, inr, none, not, refl, some, ℕ, ◌&&◌, ◌∙◌, ◌≡◌, ◌≢◌, ◌⊎◌,
}

-- One successful request about orders or payments; a new order has another identifier than `k`,
-- and a new payment an identifier that is not in use.
pub data OrdersStep (k : ℕ) (b b' : Books) : Type 0 where
  created_ :
      (r : Replies) (id : ℕ) (request : CreateRequest) (actor : TokenUser) (o : Order)
      → k ≢ id
      → create_order r id request actor b ≡ ok (b', o)
      → OrdersStep k b b'
  moved :
      (r : Replies) (j : ℕ) (request : TransitionRequest) (actor : TokenUser) (key : Option ℕ)
      (o : Order)
      → transition_status r j request actor key b ≡ ok (b', o)
      → OrdersStep k b b'
  claimed :
      (j : ℕ) (actor : TokenUser) (o : Order)
      → claim_order j actor b ≡ ok (b', o)
      → OrdersStep k b b'
  acked :
      (j : ℕ) (actor : TokenUser) (o : Order)
      → ack_changes j actor b ≡ ok (b', o)
      → OrdersStep k b b'
  read_comment :
      (r : Replies) (j : ℕ) (actor : TokenUser) (o : Order)
      → ack_comment r j actor b ≡ ok (b', o)
      → OrdersStep k b b'
  overridden :
      (j : ℕ) (mode : ShipmentMode) (actor : TokenUser) (o : Order)
      → set_shipment_override j mode actor b ≡ ok (b', o)
      → OrdersStep k b b'
  rescheduled :
      (j : ℕ) (request : RescheduleRequest) (actor : TokenUser) (o : Order)
      → reschedule_order j request actor b ≡ ok (b', o)
      → OrdersStep k b b'
  archived :
      (r : Replies) (j : ℕ) (actor : TokenUser)
      → archive_order r j actor b ≡ ok b'
      → OrdersStep k b b'
  deleted :
      (j : ℕ) (actor : TokenUser) (volume : Option ℕ)
      → hard_delete_order j actor b ≡ ok (b', volume)
      → OrdersStep k b b'
  updated :
      (r : Replies) (j : ℕ) (u : UpdateRequest) (actor : TokenUser) (o : Order)
      → update_order r j u actor b ≡ ok (b', o)
      → OrdersStep k b b'
  booked : BooksStep b b' → OrdersStep k b b'

pub data OrdersReach (k : ℕ) (b : Books) : Books → Type 0 where
  start : OrdersReach k b b
  then_ : {c d : Books} → OrdersReach k b c → OrdersStep k c d → OrdersReach k b d

create_order-Keeps :
    (r : Replies) (k id : ℕ) (request : CreateRequest) (actor : TokenUser) (b : Books)
    → k ≢ id
    → Post (λ done. Keeps k b.orders done.0.orders) (create_order r id request actor b)
unfolding create_order
create_order-Keeps r k id request actor b other = >>=_Post (check_create request actor) λ _ _.
    >>=_Post (client_for request actor) λ client_id _.
      >>=_Post (r.client_context client_id request.organization_id) λ ctx _.
        raise_if-Post (not (is_staff actor.role) && ctx.chats_only) forbidden λ _.
          >>=_Post (payment_for request.payment_type actor.role ctx) λ payment_type _.
            >>=_Post (normalize_delivery_address request.delivery_address actor) λ address _.
              raise_if-Post (is_past r.now request.desired_date) validation λ _.
                raise_if-Post (not (r.is_active_fuel request.fuel_type)) validation λ _.
                  >>=_Post (expected_amount_for r ctx request.fuel_type request.volume_requested)
                    (λ by_tariff _. ends _ (new-Keeps k id _ _ _ other refl))

hard_delete_order-Keeps :
    (k j : ℕ) (actor : TokenUser) (b : Books)
    → Post (λ done. Keeps k b.orders done.0.orders) (hard_delete_order j actor b)
unfolding hard_delete_order
hard_delete_order-Keeps k j actor b = raise_if-Post (not (is_admin actor.role)) forbidden λ _.
    or_raise-Post (lookup j b.orders) not_found (λ o found. ends _ (removed-Keeps k j _ _ refl))

recomputed-keeps : (total : ℤ) (o : Order) → (recomputed total o).status ≡ o.status
unfolding recomputed
recomputed-keeps total o = refl

cancel_payment-Keeps :
    (k : ℕ) (stamp : Text) (payment_id : ℕ) (actor : TokenUser) (reason : Option Text) (b : Books)
    → Post (λ done. Keeps k b.orders done.0.orders) (cancel_payment stamp payment_id actor reason b)
unfolding cancel_payment recompute_and_save
cancel_payment-Keeps k stamp payment_id actor reason b =
    raise_if-Post (not (is_staff actor.role)) forbidden λ _.
      or_raise-Post (lookup payment_id b.payments) not_found λ p found.
        if_Post (is_cancelled p.status) (ends _ (same-Keeps k _ _ refl)) (
          or_raise-Post (lookup p.order_id b.orders) not_found (λ o held.
            ends _ (Moved-Keeps k p.order_id _ _ _ (o, held, refl, inl (recomputed-keeps _ o)))))

BooksStep-Keeps : (k : ℕ) (b b' : Books) → BooksStep b b' → Keeps k b.orders b'.orders
BooksStep-Keeps k b b' (recorded now id order_id amount method actor notes key row fresh e) =
    elim (Bool-cases (is_used key b.keys)) [
      | inl used ↦
          let same : b' ≡ b =
            record_payment-used now id order_id amount method actor notes key b b' row used e in
          same-Keeps k b.orders b'.orders (rw same refl)
      | inr new_key ↦
          let (c, c', paid_, payments, orders, payments', orders') =
            record_payment-pays now id order_id amount method actor notes key b b' row new_key e in
          let (o, found, may, this, stored, settled, keys) =
            pay-stores now id order_id amount method actor notes c c' row paid_ in
          Moved-Keeps k order_id b.orders b'.orders
            (recomputed (get_paid_total order_id c'.payments) o)
            (o, rw (← orders) found, orders' ∙ settled ∙ rw orders refl, inl (recomputed-keeps _ o))
    ]
BooksStep-Keeps k b b' (invoiced now year id order_id basis actor p fresh e) =
    same-Keeps k b.orders b'.orders
      (create_invoice-stores now year id order_id basis actor b b' p e).1
BooksStep-Keeps k b b' (withdrawn stamp payment_id actor reason p e) =
    Post_ok (cancel_payment-Keeps k stamp payment_id actor reason b) e

step-Keeps : (k : ℕ) (b b' : Books) → OrdersStep k b b' → Keeps k b.orders b'.orders
step-Keeps k b b' (created_ r id request actor o other e) =
    Post_ok (create_order-Keeps r k id request actor b other) e
step-Keeps k b b' (moved r j request actor key o e) =
    transition_status-Keeps r j k request actor key b b' o e
step-Keeps k b b' (claimed j actor o e) =
    Moved-Keeps k j b.orders b'.orders o (Post_ok (claim_order-Moved j actor b) e)
step-Keeps k b b' (acked j actor o e) =
    Moved-Keeps k j b.orders b'.orders o (Post_ok (ack_changes-Moved j actor b) e)
step-Keeps k b b' (read_comment r j actor o e) =
    Moved-Keeps k j b.orders b'.orders o (Post_ok (ack_comment-Moved r j actor b) e)
step-Keeps k b b' (overridden j mode actor o e) =
    Moved-Keeps k j b.orders b'.orders o (Post_ok (set_shipment_override-Moved j mode actor b) e)
step-Keeps k b b' (rescheduled j request actor o e) =
    Moved-Keeps k j b.orders b'.orders o (Post_ok (reschedule_order-Moved j request actor b) e)
step-Keeps k b b' (archived r j actor e) =
    let (o, step, gone) = Post_ok (archive_order-Moved r j actor b) e in
    Moved-Keeps k j b.orders b'.orders o step
step-Keeps k b b' (deleted j actor volume e) = Post_ok (hard_delete_order-Keeps k j actor b) e
step-Keeps k b b' (updated r j u actor o e) =
    Moved-Keeps k j b.orders b'.orders o (Post_ok (update_order-Moved r j u actor b) e)
step-Keeps k b b' (booked step) = BooksStep-Keeps k b b' step

-- Whatever is asked of the service, an order stays at its status, goes along the graph of the
-- life cycle, or is deleted and stays away.
pub OrdersReach-StatusPath :
    (k : ℕ) {b b' : Books} (o : Order)
    → lookup k b.orders ≡ some o
    → OrdersReach k b b'
    → (lookup k b'.orders ≡ none)
      ⊎ ((o' : Order) × (lookup k b'.orders ≡ some o') × StatusPath o.status o'.status)
OrdersReach-StatusPath k o h start = inr (o, h, stay)
OrdersReach-StatusPath k o h (then_ {c} {d} r step) = elim (OrdersReach-StatusPath k o h r) [
  | inl gone ↦ inl ((step-Keeps k c d step).1 gone)
  | inr (a, held, path) ↦ elim ((step-Keeps k c d step).0 a held) [
    | inl gone ↦ inl gone
    | inr (a', held', near) ↦ inr (a', held', StatusPath-Near o.status a.status a'.status path near)
  ]
]
