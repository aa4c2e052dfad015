-- ===== src/Payments/Totals.antt =====
-- What a recorded and a cancelled payment do to the paid sums of the orders.
use balt_oil.Payments.Ops.{
  awaits, cancelled_payment, get_paid_total, latest_pending, may_record, paid_amount, pay,
  recompute_and_save, recomputed, settle,
}
use balt_oil.Payments.Defs.{Books, Order, Payment, PaymentMethod}
use balt_oil.Text.{Text}
use balt_oil.Service.{TokenUser, ok}
use balt_oil.Table.{Table, Unique, lookup, put, sum_rows-put, sum_rows-put_new}
use balt_oil.Prelude.Int.{int_laws, pos, ℤ, ◌+ℤ◌, ◌-ℤ◌}
use balt_oil.Prelude.{
  Option, Option-cases, [], arith, if◌then◌else◌, inl, inr, none, some, true, ℕ, ◌==◌, ◌∷◌, ◌≡◌,
  refl,
}

latest_pending-finds :
    (order_id k : ℕ) (p : Payment) (t : Table Payment)
    → Unique t
    → latest_pending order_id t ≡ some (k, p)
    → (lookup k t ≡ some p) × (awaits order_id p ≡ true)
latest_pending-finds order_id k p [] u e = cc
latest_pending-finds order_id k p ((j, q) ∷ t) u e =
    elim (Option-cases (latest_pending order_id t)) [
      | inl missing ↦ ground arith
      | inr (best, found) ↦
          let (held, waits) = latest_pending-finds order_id best.0 best.1 t u.1 found in
          ground arith
    ]

-- The shape of a successful `pay`.
pub pay-stores :
    (now id order_id : ℕ) (amount : ℤ) (method : PaymentMethod) (actor : TokenUser)
    (notes : Option Text) (b b' : Books) (row : ℕ × Payment)
    → pay now id order_id amount method actor notes b ≡ ok (b', row)
    → (o : Order) × (lookup order_id b.orders ≡ some o)
      × (may_record actor o ≡ true)
      × (row
          ≡ settle now id order_id o amount method actor notes (latest_pending order_id b.payments))
      × (b'.payments ≡ put row.0 row.1 b.payments)
      × (b'.orders ≡ put order_id (recomputed (get_paid_total order_id b'.payments) o) b.orders)
      × (b'.keys ≡ b.keys)
unfolding pay recompute_and_save
pay-stores now id order_id amount method actor notes b b' row e =
    elim (Option-cases (lookup order_id b.orders)) [
      | inl missing ↦ absurd (ground arith)
      | inr (o, found) ↦
          (o, found, ground arith, ground arith, ground arith, ground arith, ground arith)
    ]

settle-total :
    (now id order_id j : ℕ) (o : Order) (amount : ℤ) (method : PaymentMethod) (actor : TokenUser)
    (notes : Option Text) (t : Table Payment) (invoice : Option (ℕ × Payment))
    → Unique t
    → lookup id t ≡ none
    → latest_pending order_id t ≡ invoice
    → let row = settle now id order_id o amount method actor notes invoice in
      get_paid_total j (put row.0 row.1 t)
      ≡ get_paid_total j t +ℤ (if order_id == j then amount else pos 0)
settle-total now id order_id j o amount method actor notes t none u fresh e = grind (
  int_laws,
  sum_rows-put_new (paid_amount j) id (settle now id order_id o amount method actor notes none).1 t
      fresh,
)
settle-total now id order_id j o amount method actor notes t (some (k, p)) u fresh e =
    let (held, waits) = latest_pending-finds order_id k p t u e in
    grind (
      int_laws,
      sum_rows-put (paid_amount j) k
          (settle now id order_id o amount method actor notes (some (k, p))).1 {old = p} t held,
    )

-- A recorded payment adds its amount to its order and nothing to any other.
pub pay-total :
    (now id order_id j : ℕ) (amount : ℤ) (method : PaymentMethod) (actor : TokenUser)
    (notes : Option Text) (b b' : Books) (row : ℕ × Payment)
    → Unique b.payments
    → lookup id b.payments ≡ none
    → pay now id order_id amount method actor notes b ≡ ok (b', row)
    → get_paid_total j b'.payments
      ≡ get_paid_total j b.payments +ℤ (if order_id == j then amount else pos 0)
pay-total now id order_id j amount method actor notes b b' row u fresh e =
    let (o, found, may, this, stored, orders, keys) =
      pay-stores now id order_id amount method actor notes b b' row e in
    rw (stored, this)
      (settle-total now id order_id j o amount method actor notes b.payments
        (latest_pending order_id b.payments) u fresh refl)

-- A cancelled payment takes what it added.
pub cancelled_payment-total :
    (stamp : Text) (reason : Option Text) (k j : ℕ) (p : Payment) (t : Table Payment)
    → lookup k t ≡ some p
    → get_paid_total j (put k (cancelled_payment stamp reason p) t)
      ≡ get_paid_total j t -ℤ paid_amount j p
cancelled_payment-total stamp reason k j p t found =
    grind (
      int_laws,
      sum_rows-put (paid_amount j) k (cancelled_payment stamp reason p) {old = p} t found,
    )
