-- ===== src/Payments/Settled.antt =====
-- The payment status of the orders against their paid sums, and what it lets drive off.
use balt_oil.Payments.Gate.{is_used, record_payment-pays, record_payment-used}
use balt_oil.Payments.Totals.{pay-stores, pay-total, cancelled_payment-total}
use balt_oil.Payments.Ops.{
  Basis, cancel_payment, compute_payment_status, compute_shipment_allowed, create_invoice,
  get_paid_total, paid_amount, pay, recompute_and_save, recomputed, record_payment, target_amount,
  cancelled_payment,
}
use balt_oil.Payments.Defs.{Books, Order, Payment, PaymentMethod, is_paid, prepaid, is_cancelled}
use balt_oil.Text.{Text}
use balt_oil.Service.{TokenUser, ok}
use balt_oil.Table.{Table, Unique, lookup, lookup-put, put, put-Unique, sum_rows-put_new}
use balt_oil.Prelude.Int.{int_laws, leb_ℤ, ℤ}
use balt_oil.Prelude.{
  Bool-cases, Option, arith, false, inl, inr, none, refl, some, ℕ, ◌==◌, ◌≡◌, ◌≢◌, Option-cases,
}

-- Every order has the payment status of the sum of its paid payments.
abbrev pub Agrees : Table Order → Table Payment → Type 0
Agrees orders payments =
    (k : ℕ) (o : Order)
    → lookup k orders ≡ some o
    → o.payment_status
      ≡ compute_payment_status (get_paid_total k payments) o.expected_amount o.final_amount

recomputed-status :
    (total : ℤ) (o : Order)
    → (recomputed total o).payment_status
      ≡ compute_payment_status total
          (recomputed total o).expected_amount
          (recomputed total o).final_amount
unfolding recomputed
recomputed-status total o = refl

recompute-Agrees :
    (k : ℕ) (o : Order) (orders : Table Order) (payments payments' : Table Payment)
    → Agrees orders payments
    → ((j : ℕ) → k ≢ j → get_paid_total j payments' ≡ get_paid_total j payments)
    → Agrees (put k (recomputed (get_paid_total k payments') o) orders) payments'
recompute-Agrees k o orders payments payments' agrees same j a h =
    let o' = recomputed (get_paid_total k payments') o in
    elim (Bool-cases (k == j)) [
      | inl this ↦
          let here : a ≡ o' = ground (arith, lookup-put k j o' orders) in
          let id : k ≡ j = ground arith in
          rw (here, ← id) (recomputed-status (get_paid_total k payments') o)
      | inr differ ↦
          rw (same j (ground arith)) (agrees j a (ground (arith, lookup-put k j o' orders)))
    ]

-- What holds of the books: unique keys, and statuses that agree with the payments.
abbrev pub Balanced : Books → Type 0
Balanced b = Unique b.payments × Agrees b.orders b.payments

pay-Balanced :
    (now id order_id : ℕ) (amount : ℤ) (method : PaymentMethod) (actor : TokenUser)
    (notes : Option Text) (b b' : Books) (row : ℕ × Payment)
    → lookup id b.payments ≡ none
    → pay now id order_id amount method actor notes b ≡ ok (b', row)
    → Balanced b
    → Balanced b'
pay-Balanced now id order_id amount method actor notes b b' row fresh e (u, agrees) =
    let (o, found, may, this, stored, orders, keys) =
      pay-stores now id order_id amount method actor notes b b' row e in
    (
      rw stored (put-Unique row.0 row.1 b.payments u),
      rw orders (
          recompute-Agrees order_id o b.orders b.payments b'.payments agrees (λ j differ.
            grind (
              int_laws,
              pay-total now id order_id j amount method actor notes b b' row u fresh e,
            ))),
    )

-- One successful request of payment_service.
pub data BooksStep (b b' : Books) : Type 0 where
  recorded :
      (now id order_id : ℕ) (amount : ℤ) (method : PaymentMethod) (actor : TokenUser)
      (notes : Option Text) (key : Option ℕ) (row : ℕ × Payment)
      → lookup id b.payments ≡ none
      → record_payment now id order_id amount method actor notes key b ≡ ok (b', row)
      → BooksStep b b'
  invoiced :
      (now year id order_id : ℕ) (basis : Basis) (actor : TokenUser) (p : Payment)
      → lookup id b.payments ≡ none
      → create_invoice now year id order_id basis actor b ≡ ok (b', p)
      → BooksStep b b'
  withdrawn :
      (stamp : Text) (k : ℕ) (actor : TokenUser) (reason : Option Text) (p : Payment)
      → cancel_payment stamp k actor reason b ≡ ok (b', p)
      → BooksStep b b'

pub data BooksReach (b : Books) : Books → Type 0 where
  here : BooksReach b b
  next : {c d : Books} → BooksReach b c → BooksStep c d → BooksReach b d

record_payment-Balanced :
    (now id order_id : ℕ) (amount : ℤ) (method : PaymentMethod) (actor : TokenUser)
    (notes : Option Text) (key : Option ℕ) (b b' : Books) (row : ℕ × Payment)
    → lookup id b.payments ≡ none
    → record_payment now id order_id amount method actor notes key b ≡ ok (b', row)
    → Balanced b
    → Balanced b'
record_payment-Balanced now id order_id amount method actor notes key b b' row fresh e fine =
    elim (Bool-cases (is_used key b.keys)) [
      | inl used ↦
          rw (record_payment-used now id order_id amount method actor notes key b b' row used e)
            fine
      | inr new_key ↦
          let (c, c', paid_, payments, orders, payments', orders') =
            record_payment-pays now id order_id amount method actor notes key b b' row new_key e in
          rw (payments', orders')
            (pay-Balanced now id order_id amount method actor notes c c' row (rw payments fresh)
              paid_ (rw (payments, orders) fine))
    ]

pub create_invoice-stores :
    (now year id order_id : ℕ) (basis : Basis) (actor : TokenUser) (b b' : Books) (p : Payment)
    → create_invoice now year id order_id basis actor b ≡ ok (b', p)
    → (b'.payments ≡ put id p b.payments) × (b'.orders ≡ b.orders) × (is_paid p.status ≡ false)
unfolding create_invoice
create_invoice-stores now year id order_id basis actor b b' p e = ground arith

create_invoice-Balanced :
    (now year id order_id : ℕ) (basis : Basis) (actor : TokenUser) (b b' : Books) (p : Payment)
    → lookup id b.payments ≡ none
    → create_invoice now year id order_id basis actor b ≡ ok (b', p)
    → Balanced b
    → Balanced b'
create_invoice-Balanced now year id order_id basis actor b b' p fresh e (u, agrees) =
    let (stored, orders, unsettled) =
      create_invoice-stores now year id order_id basis actor b b' p e in
    (
      rw stored (put-Unique id p b.payments u),
      λ k o h.
          let same : get_paid_total k (put id p b.payments) ≡ get_paid_total k b.payments =
            grind (int_laws, sum_rows-put_new (paid_amount k) id p b.payments fresh) in
          rw (stored, same) (agrees k o (rw orders at h)),
    )

cancel_payment-Balanced :
    (stamp : Text) (k : ℕ) (actor : TokenUser) (reason : Option Text) (b b' : Books) (p : Payment)
    → cancel_payment stamp k actor reason b ≡ ok (b', p)
    → Balanced b
    → Balanced b'
unfolding cancel_payment recompute_and_save
cancel_payment-Balanced stamp k actor reason b b' p e (u, agrees) =
    elim (Option-cases (lookup k b.payments)) [
      | inl missing ↦ absurd (ground arith)
      | inr (q, found) ↦ elim (Bool-cases (is_cancelled q.status)) [
        | inl before ↦ let same : b' ≡ b = ground arith in rw same (u, agrees)
        | inr standing ↦ elim (Option-cases (lookup q.order_id b.orders)) [
          | inl lost ↦ absurd (ground arith)
          | inr (o, held) ↦
              let q' = cancelled_payment stamp reason q in
              let payments : b'.payments ≡ put k q' b.payments = ground arith in
              let orders : b'.orders
                  ≡ put q.order_id (recomputed (get_paid_total q.order_id (put k q' b.payments)) o)
                      b.orders =
                ground arith in
              (
                rw payments (put-Unique k q' b.payments u),
                rw (orders, payments)
                    (recompute-Agrees q.order_id o b.orders b.payments (put k q' b.payments) agrees
                      (λ j differ.
                        grind
                          (int_laws, cancelled_payment-total stamp reason k j q b.payments found))),
              )
        ]
      ]
    ]

-- However payments are recorded, invoiced and cancelled, the payment status of every order is the
-- one of the sum of its paid payments against its final or expected amount.
pub BooksReach-Balanced : {b b' : Books} → Balanced b → BooksReach b b' → Balanced b'
BooksReach-Balanced fine here = fine
BooksReach-Balanced fine (next r (recorded now id order_id amount method actor notes key row f e)) =
    record_payment-Balanced now id order_id amount method actor notes key _ _ row f e
      (BooksReach-Balanced fine r)
BooksReach-Balanced fine (next r (invoiced now year id order_id basis actor p f e)) =
    create_invoice-Balanced now year id order_id basis actor _ _ p f e (BooksReach-Balanced fine r)
BooksReach-Balanced fine (next r (withdrawn stamp k actor reason p e)) =
    cancel_payment-Balanced stamp k actor reason _ _ p e (BooksReach-Balanced fine r)

-- Without an override or a permit to deliver unpaid, a prepaid order whose status agrees with its
-- paid sum is released exactly when that sum reaches the final or expected amount.
pub compute_shipment_allowed_prepaid :
    (o : Order) (total target : ℤ)
    → o.payment_status ≡ compute_payment_status total o.expected_amount o.final_amount
    → o.payment_type ≡ prepaid
    → o.shipment_override ≡ none
    → o.allow_delivery_unpaid ≡ false
    → target_amount o ≡ some target
    → compute_shipment_allowed o total ≡ leb_ℤ target total
unfolding compute_shipment_allowed compute_payment_status
compute_shipment_allowed_prepaid o total target agrees kind no_override no_permit aim = ground arith
