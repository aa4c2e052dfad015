-- ===== src/Payments/Cancel.antt =====
-- What `cancel_payment` does, once and again.
use balt_oil.Payments.Totals.{cancelled_payment-total}
use balt_oil.Payments.Ops.{
  cancel_payment, cancelled_payment, get_paid_total, paid_amount, recompute_and_save,
}
use balt_oil.Payments.Defs.{Books, Payment, is_cancelled, is_paid}
use balt_oil.Text.{Text}
use balt_oil.Service.{TokenUser, is_staff, ok}
use balt_oil.Table.{lookup, lookup-put_self, put}
use balt_oil.Prelude.Int.{int_laws, ◌-ℤ◌}
use balt_oil.Prelude.{
  Bool-cases, Option, Option-cases, arith, false, inl, inr, refl, some, true, ℕ, ◌≡◌,
}

cancelled-total :
    (stamp : Text) (k j : ℕ) (actor : TokenUser) (reason : Option Text) (b b' : Books)
    (p p' : Payment)
    → lookup k b.payments ≡ some p
    → cancel_payment stamp k actor reason b ≡ ok (b', p')
    → get_paid_total j b'.payments ≡ get_paid_total j b.payments -ℤ paid_amount j p
unfolding cancel_payment recompute_and_save
cancelled-total stamp k j actor reason b b' p p' found e =
    elim (Bool-cases (is_cancelled p.status)) [
      | inl before ↦
          let same : b' ≡ b = ground arith in
          let nothing : is_paid p.status ≡ false = ground arith in rw same (grind int_laws)
      | inr standing ↦
          let payments : b'.payments ≡ put k (cancelled_payment stamp reason p) b.payments =
            ground arith in
          rw payments (cancelled_payment-total stamp reason k j p b.payments found)
    ]

cancelled-again :
    (stamp stamp' : Text) (k : ℕ) (actor actor' : TokenUser) (reason reason' : Option Text)
    (b b' : Books) (p' : Payment)
    → is_staff actor'.role ≡ true
    → cancel_payment stamp k actor reason b ≡ ok (b', p')
    → cancel_payment stamp' k actor' reason' b' ≡ ok (b', p')
unfolding cancel_payment recompute_and_save
cancelled-again stamp stamp' k actor actor' reason reason' b b' p' staff e =
    elim (Option-cases (lookup k b.payments)) [
      | inl missing ↦ absurd (ground arith)
      | inr (p, found) ↦ elim (Bool-cases (is_cancelled p.status)) [
        | inl before ↦ ground arith
        | inr standing ↦
            let q = cancelled_payment stamp reason p in
            let payments : b'.payments ≡ put k q b.payments = ground arith in
            let same : p' ≡ q = ground arith in
            let held : lookup k b'.payments ≡ some q =
              rw payments (lookup-put_self k q b.payments) in
            rw (held, same, staff, cancel_payment) refl
      ]
    ]

-- A cancellation takes from the paid sums what the payment had added, and nothing if it was not
-- paid; a second cancellation by an employee changes nothing.
pub cancel_payment_total :
    (stamp stamp' : Text) (k j : ℕ) (actor actor' : TokenUser) (reason reason' : Option Text)
    (b b' : Books) (p p' : Payment)
    → lookup k b.payments ≡ some p
    → is_staff actor'.role ≡ true
    → cancel_payment stamp k actor reason b ≡ ok (b', p')
    → (get_paid_total j b'.payments ≡ get_paid_total j b.payments -ℤ paid_amount j p)
      × (cancel_payment stamp' k actor' reason' b' ≡ ok (b', p'))
cancel_payment_total stamp stamp' k j actor actor' reason reason' b b' p p' found staff e = (
  cancelled-total stamp k j actor reason b b' p p' found e,
  cancelled-again stamp stamp' k actor actor' reason reason' b b' p' staff e,
)
