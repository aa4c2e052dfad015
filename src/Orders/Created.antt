-- ===== src/Orders/Created.antt =====
-- What a client may order.
use balt_oil.Orders.Create.{
  CreateRequest, create_order, large_volume_threshold_l, min_volume_l, payment_for, check_create,
  is_past, kind_for, normalize_delivery_address, client_for, needs_approval,
}
use balt_oil.Orders.Amounts.{expected_amount_for}
use balt_oil.Orders.Defs.{Replies, is_awaiting}
use balt_oil.Prices.Tariffs.{ClientContext, is_individual_client, validate_payment_type}
use balt_oil.Payments.Defs.{
  Books, Order, PaymentType, debt, on_delivery, postpaid, awaiting_manager, new,
}
use balt_oil.Service.{
  Role, TokenUser, ok, >>=_Post, Post, Post_ok, ends, forbidden, raise_if-Post, validation,
}
use balt_oil.Prelude.Int.{ℤ}
use balt_oil.Prelude.{
  Option, false, is_some, leb, ltb, none, not, true, ℕ, ◌||◌, ◌≡◌, ◌≢◌, Bool, arith, if◌then◌else◌,
  refl, ◌∙◌,
}

-- What a client of this context may pay.
abbrev pub PaysAs : ClientContext → PaymentType → Type 0
PaysAs ctx kind =
    (is_individual_client ctx.client_type ≡ true → kind ≡ on_delivery)
    × (kind ≢ postpaid)
    × (kind ≡ debt → ctx.credit_allowed ≡ true)

payment_for-PaysAs :
    (chosen : Option PaymentType) (ctx : ClientContext) (kind : PaymentType)
    → payment_for chosen Role.client ctx ≡ ok kind
    → PaysAs ctx kind
unfolding validate_payment_type
payment_for-PaysAs chosen ctx kind e = ground arith

abbrev pub a_client : ℕ → TokenUser
a_client user = record { id = user; role = Role.client }

-- What holds of an order that a client of this context made.
abbrev pub ClientOrder : ℕ → ClientContext → Order → Type 0
ClientOrder user ctx o =
    (ctx.chats_only ≡ false)
    × (o.client_id ≡ user)
    × (o.driver_id ≡ none)
    × (leb min_volume_l o.volume_requested ≡ true)
    × PaysAs ctx o.payment_type
    × (is_awaiting o.status ≡ (
        is_individual_client ctx.client_type
        || ltb large_volume_threshold_l o.volume_requested
        || not (is_some o.delivery_cost)))

check_create-client :
    (request : CreateRequest) (user : ℕ)
    → check_create request (a_client user) ≡ ok tt
    → (leb min_volume_l request.volume_requested ≡ true) × (request.is_ttn_l ≡ false)
unfolding check_create
check_create-client request user e = ground arith

waits_awaiting : (waits : Bool) → is_awaiting (if waits then awaiting_manager else new) ≡ waits
waits_awaiting true = refl
waits_awaiting false = refl

client_for-own :
    (request : CreateRequest) (user client_id : ℕ)
    → client_for request (a_client user) ≡ ok client_id
    → client_id ≡ user
client_for-own request user client_id e = ground arith

needs_approval-sold :
    (internal : Bool) (user : ℕ) (ctx : ClientContext) (volume : ℕ) (cost : Option ℤ)
    → internal ≡ false
    → needs_approval (a_client user) (kind_for internal ctx.client_type) ctx volume cost ≡ (
        is_individual_client ctx.client_type
        || ltb large_volume_threshold_l volume
        || not (is_some cost))
needs_approval-sold internal user ctx volume cost sold = ground arith

create_order-made :
    (r : Replies) (id user : ℕ) (request : CreateRequest) (b : Books)
    → Post
        (λ done.
          (ctx : ClientContext) × (r.client_context user request.organization_id ≡ ok ctx)
          × ClientOrder user ctx done.1)
        (create_order r id request (a_client user) b)
unfolding create_order
create_order-made r id user request b = >>=_Post (check_create request (a_client user)) λ _ checked.
    let (enough, sold) = check_create-client request user checked in
    >>=_Post (client_for request (a_client user)) λ client_id owned.
      >>=_Post (r.client_context client_id request.organization_id) λ ctx known.
        raise_if-Post ctx.chats_only forbidden λ chats.
          >>=_Post (payment_for request.payment_type Role.client ctx) λ payment_type pays.
            >>=_Post (normalize_delivery_address request.delivery_address (a_client user))
              λ address _. raise_if-Post (is_past r.now request.desired_date) validation λ _.
                raise_if-Post (not (r.is_active_fuel request.fuel_type)) validation λ _.
                  >>=_Post (expected_amount_for r ctx request.fuel_type request.volume_requested)
                    (λ by_tariff _.
                      let own = client_for-own request user client_id owned in
                      ends _ (
                        ctx,
                        rw own at known,
                        (
                          chats,
                          own,
                          refl,
                          enough,
                          payment_for-PaysAs request.payment_type ctx payment_type pays,
                          waits_awaiting _
                              ∙ needs_approval-sold request.is_ttn_l user ctx
                                  request.volume_requested _ sold,
                        ),
                      ))

-- An order that a client makes is the client's own, has no driver and at least 300 litres, is paid
-- on delivery by an individual, never afterwards and in debt only with a credit; it waits for a
-- manager if the client is an individual, the volume is above 3000 litres or the delivery has no
-- price.
pub create_order-client :
    (r : Replies) (id user : ℕ) (request : CreateRequest) (b b' : Books) (o : Order)
    → create_order r id request (a_client user) b ≡ ok (b', o)
    → (ctx : ClientContext) × (r.client_context user request.organization_id ≡ ok ctx)
      × ClientOrder user ctx o
create_order-client r id user request b b' o e = Post_ok (create_order-made r id user request b) e
