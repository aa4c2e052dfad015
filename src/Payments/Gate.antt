-- ===== src/Payments/Gate.antt =====
-- The idempotency gate of `record_payment`, and who passes it.
use balt_oil.Payments.Totals.{pay-stores, pay-total}
use balt_oil.Payments.Ops.{claim, get_paid_total, pay, record_payment, cached}
use balt_oil.Payments.Defs.{
  Books, IdempotencyKey, Order, Payment, PaymentMethod, is_delivered, is_individual,
}
use balt_oil.Text.{Text}
use balt_oil.Service.{Result-cases, TokenUser, is_driver, ok}
use balt_oil.Table.{Table, Unique, lookup, put, lookup-put_self}
use balt_oil.Prelude.Int.{pos, ℤ, ◌+ℤ◌}
use balt_oil.Prelude.{
  Bool, Option, ap, arith, false, if◌then◌else◌, inl, inr, is_some, none, refl, same_id, some, true,
  ℕ, ◌==◌, ◌≡◌, Option-cases,
}

-- Was the key of the request claimed before?
abbrev pub is_used : Option ℕ → Table IdempotencyKey → Bool
is_used none keys = false
is_used (some key) keys = is_some (lookup key keys)

-- Behind an unused key stands one `pay`, on books that differ at most in the claim.
pub record_payment-pays :
    (now id order_id : ℕ) (amount : ℤ) (method : PaymentMethod) (actor : TokenUser)
    (notes : Option Text) (key : Option ℕ) (b b' : Books) (row : ℕ × Payment)
    → is_used key b.keys ≡ false
    → record_payment now id order_id amount method actor notes key b ≡ ok (b', row)
    → (c c' : Books) × (pay now id order_id amount method actor notes c ≡ ok (c', row))
      × (c.payments ≡ b.payments)
      × (c.orders ≡ b.orders)
      × (b'.payments ≡ c'.payments)
      × (b'.orders ≡ c'.orders)
unfolding record_payment
record_payment-pays now id order_id amount method actor notes none b b' row new_key e =
    (b, b', e, refl, refl, refl, refl)
record_payment-pays now id order_id amount method actor notes (some key) b b' row new_key e =
    let claimed : Books = record b { keys = put key (claim order_id none) b.keys } in
    elim (Result-cases (pay now id order_id amount method actor notes claimed)) [
      | inr (x, failed) ↦ absurd (ground arith)
      | inl (done, paid_) ↦ (claimed, done.0, ground arith, refl, refl, ground arith, ground arith)
    ]

-- Behind a used key nothing is written.
pub record_payment-used :
    (now id order_id : ℕ) (amount : ℤ) (method : PaymentMethod) (actor : TokenUser)
    (notes : Option Text) (key : Option ℕ) (b b' : Books) (row : ℕ × Payment)
    → is_used key b.keys ≡ true
    → record_payment now id order_id amount method actor notes key b ≡ ok (b', row)
    → b' ≡ b
unfolding record_payment
record_payment-used now id order_id amount method actor notes none b b' row used e = cc
record_payment-used now id order_id amount method actor notes (some key) b b' row used e =
    ground arith

-- A recorded payment adds its amount to the paid sum of its order and nothing to any other order,
-- whether it settles a pending invoice or is a row of its own, if its key was not used before.
pub record_payment-total :
    (now id order_id j : ℕ) (amount : ℤ) (method : PaymentMethod) (actor : TokenUser)
    (notes : Option Text) (key : Option ℕ) (b b' : Books) (row : ℕ × Payment)
    → Unique b.payments
    → lookup id b.payments ≡ none
    → is_used key b.keys ≡ false
    → record_payment now id order_id amount method actor notes key b ≡ ok (b', row)
    → get_paid_total j b'.payments
      ≡ get_paid_total j b.payments +ℤ (if order_id == j then amount else pos 0)
record_payment-total now id order_id j amount method actor notes key b b' row u fresh new_key e =
    let (c, c', paid_, payments, orders, payments', orders') =
      record_payment-pays now id order_id amount method actor notes key b b' row new_key e in
    rw (payments', ← payments)
      (pay-total now id order_id j amount method actor notes c c' row (rw payments u)
        (rw payments fresh) paid_)

cached-claim :
    (order_id : ℕ) (row : ℕ × Payment) (t : Table Payment)
    → lookup row.0 t ≡ some row.1
    → cached (claim order_id (some row.0)) t ≡ some row
cached-claim order_id row t h = ground arith

-- A successful request leaves its key bound to its payment.
record_payment-binds :
    (now id order_id key : ℕ) (amount : ℤ) (method : PaymentMethod) (actor : TokenUser)
    (notes : Option Text) (b b' : Books) (row : ℕ × Payment)
    → record_payment now id order_id amount method actor notes (some key) b ≡ ok (b', row)
    → (used : IdempotencyKey) × (lookup key b'.keys ≡ some used)
      × (cached used b'.payments ≡ some row)
unfolding record_payment
record_payment-binds now id order_id key amount method actor notes b b' row e =
    elim (Option-cases (lookup key b.keys)) [
      | inr (used, found) ↦ (used, ground arith, ground arith)
      | inl unclaimed ↦
          let claimed : Books = record b { keys = put key (claim order_id none) b.keys } in
          elim (Result-cases (pay now id order_id amount method actor notes claimed)) [
            | inr (x, failed) ↦ absurd (ground arith)
            | inl (done, paid_) ↦
                let same : done.1 ≡ row = ground arith in
                let keys : b'.keys ≡ put key (claim order_id (some row.0)) done.0.keys =
                  ground arith in
                let (o, found, may, this, stored, orders, kept) =
                  pay-stores now id order_id amount method actor notes claimed done.0 done.1
                    paid_ in
                let payments : b'.payments ≡ put row.0 row.1 b.payments = ground arith in
                (
                  claim order_id (some row.0),
                  rw keys (lookup-put_self key (claim order_id (some row.0)) done.0.keys),
                  rw payments (
                      cached-claim order_id row (put row.0 row.1 b.payments)
                        (lookup-put_self row.0 row.1 b.payments)),
                )
          ]
    ]

record_payment-bound :
    (now id order_id key : ℕ) (amount : ℤ) (method : PaymentMethod) (actor : TokenUser)
    (notes : Option Text) (b : Books) (row : ℕ × Payment) (used : IdempotencyKey)
    → lookup key b.keys ≡ some used
    → cached used b.payments ≡ some row
    → record_payment now id order_id amount method actor notes (some key) b ≡ ok (b, row)
unfolding record_payment
record_payment-bound now id order_id key amount method actor notes b row used found names =
    ground arith

-- A request that repeats the key of a successful one answers with the same payment and changes
-- nothing, whatever its other fields are and however often it comes.
pub record_payment_again :
    (now later id id' order_id order_id' key : ℕ) (amount amount' : ℤ)
    (method method' : PaymentMethod) (actor actor' : TokenUser) (notes notes' : Option Text)
    (b b' : Books) (row : ℕ × Payment)
    → record_payment now id order_id amount method actor notes (some key) b ≡ ok (b', row)
    → record_payment later id' order_id' amount' method' actor' notes' (some key) b' ≡ ok (b', row)
record_payment_again now later id id' order_id order_id' key amount amount' method method' actor
      actor' notes notes' b b' row e =
    let (used, found, names) =
      record_payment-binds now id order_id key amount method actor notes b b' row e in
    record_payment-bound later id' order_id' key amount' method' actor' notes' b' row used found
      names

-- A driver records a payment only for an order of a private person that is theirs and delivered.
pub record_payment_driver :
    (now id order_id : ℕ) (amount : ℤ) (method : PaymentMethod) (actor : TokenUser)
    (notes : Option Text) (key : Option ℕ) (b b' : Books) (row : ℕ × Payment) (o : Order)
    → is_driver actor.role ≡ true
    → is_used key b.keys ≡ false
    → lookup order_id b.orders ≡ some o
    → record_payment now id order_id amount method actor notes key b ≡ ok (b', row)
    → (is_individual o.order_kind ≡ true)
      × (same_id o.driver_id actor.id ≡ true)
      × (is_delivered o.status ≡ true)
record_payment_driver now id order_id amount method actor notes key b b' row o driving new_key found
      e =
    let (c, c', paid_, payments, orders, payments', orders') =
      record_payment-pays now id order_id amount method actor notes key b b' row new_key e in
    let (o', held, may, this, stored, put_orders, keys) =
      pay-stores now id order_id amount method actor notes c c' row paid_ in
    let same : o' ≡ o = ground (arith, ap (lookup order_id) orders) in ground arith
