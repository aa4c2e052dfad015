-- ===== src/Payments/Examples.antt =====
-- Tests of the payments, and their theorems at concrete inputs.
use balt_oil.Payments.Cancel.{cancel_payment_total}
use balt_oil.Payments.Settled.{Balanced, BooksReach-Balanced, here, invoiced, next, recorded}
use balt_oil.Payments.Gate.{record_payment-total, record_payment_again}
use balt_oil.Payments.Ops.{
  cancel_payment, cancelled_payment, claim, compute_payment_status, create_invoice, get_paid_total,
  pay, recompute_and_save, recomputed, record_payment, requested,
}
use balt_oil.Payments.Defs.{
  Books, Order, Payment, actual, card, cash, company, delivered, fully_paid, hold, individual, new,
  on_delivery, paid, partially_paid, payment_cancelled, payment_recorded, pending, prepaid,
  prepayment, unpaid,
}
use balt_oil.Text.{codes}
use balt_oil.Service.{TokenUser, driver, manager, ok}
use balt_oil.Prelude.Int.{pos, ◌+ℤ◌, ◌-ℤ◌}
use balt_oil.Prelude.{[], arith, false, none, refl, some, ◌∷◌, ◌≡◌}

abbrev boss : TokenUser
boss = record { id = 1; role = manager }

abbrev petr : TokenUser
petr = record { id = 3; role = driver }

abbrev prepaid_order : Order
prepaid_order = record {
  order_number = (company, 5);
  order_kind = company;
  client_id = 2;
  fuel_type = 1;
  volume_requested = 100_000;
  delivery_address = codes "Tver";
  desired_date = none;
  contact_person_name = none;
  contact_person_phone = none;
  ttn_number = none;
  ttn_kind = none;
  pending_driver_ack = false;
  pending_changed_fields = none;
  trade_credit_contract_signed = false;
  organization_id = none;
  manager_id = none;
  delivery_lat = none;
  delivery_lon = none;
  delivery_cost = none;
  delivery_cost_is_manual = false;
  manual_price_per_liter = none;
  client_comment = none;
  manager_comment = none;
  rejection_reason = none;
  driver_comment_ack_at = none;
  archived_at = none;
  status = new;
  payment_type = prepaid;
  volume_delivered = none;
  expected_amount = some (pos 100_000);
  final_amount = none;
  driver_id = none;
  payment_status = unpaid;
  allow_delivery_unpaid = false;
  shipment_override = some hold;
  is_archived = false;
}

abbrev home_order : Order
home_order = record prepaid_order {
  order_kind = individual;
  status = delivered;
  payment_type = on_delivery;
  driver_id = some 3;
  shipment_override = none;
}

abbrev books : Books
books = record {
  orders = (20, prepaid_order) ∷ (21, home_order) ∷ [];
  payments = [];
  keys = [];
  status_logs = [];
  audit_logs = [];
  invoice_seq = 7;
  counters = [];
}

books-Balanced : Balanced books
unfolding compute_payment_status
books-Balanced = (tt, λ k o h. ground arith)

abbrev bill : Payment
bill = record {
  order_id = 20;
  client_id = 2;
  kind = prepayment;
  status = pending;
  method = none;
  amount = pos 100_000;
  invoice_number = some (2026, 7);
  paid_at = none;
  notes = none;
  created_by_id = 1;
  created_at = 50;
}

abbrev billed : Books
billed = record books { payments = (30, bill) ∷ []; invoice_seq = 8 }

invoices : create_invoice 50 2026 30 20 requested boss books ≡ ok (billed, bill)
unfolding create_invoice
invoices = refl

abbrev paid_bill : Payment
paid_bill = record bill { status = paid; method = some cash; paid_at = some 60 }

-- The invoice is settled, and the hold is gone with it.
abbrev settled_books : Books
settled_books = record billed {
  orders =
      (20, record prepaid_order { payment_status = fully_paid; shipment_override = none })
      ∷ (21, home_order)
      ∷ [];
  payments = (30, paid_bill) ∷ [];
  keys = (9, claim 20 (some 30)) ∷ [];
  audit_logs = record { order_id = 20; actor_id = 1; action = payment_recorded (pos 100_000) } ∷ [];
}

records :
    record_payment 60 31 20 (pos 100_000) cash boss none (some 9) billed
    ≡ ok (settled_books, (30, paid_bill))
unfolding record_payment pay recompute_and_save recomputed compute_payment_status ◌+ℤ◌
records = refl

BooksReach-Balanced_example : Balanced settled_books
BooksReach-Balanced_example = BooksReach-Balanced books-Balanced (
    next (next here (invoiced 50 2026 30 20 requested boss bill refl invoices))
      (recorded 60 31 20 (pos 100_000) cash boss none (some 9) (30, paid_bill) refl records))

record_payment-total_example :
    get_paid_total 20 settled_books.payments ≡ get_paid_total 20 billed.payments +ℤ pos 100_000
record_payment-total_example =
    record_payment-total 60 31 20 20 (pos 100_000) cash boss none (some 9) billed settled_books
      (30, paid_bill) (refl, tt) refl refl records

record_payment_again_example :
    record_payment 99 32 21 (pos 5) card petr none (some 9) settled_books
    ≡ ok (settled_books, (30, paid_bill))
record_payment_again_example =
    record_payment_again 60 99 31 32 20 21 9 (pos 100_000) (pos 5) cash card boss petr none none
      billed settled_books (30, paid_bill) records

abbrev home_payment : Payment
home_payment = record {
  order_id = 21;
  client_id = 2;
  kind = actual;
  status = paid;
  method = some cash;
  amount = pos 40_000;
  invoice_number = none;
  paid_at = some 70;
  notes = none;
  created_by_id = 3;
  created_at = 70;
}

abbrev home_books : Books
home_books = record books {
  orders = (20, prepaid_order) ∷ (21, record home_order { payment_status = partially_paid }) ∷ [];
  payments = (33, home_payment) ∷ [];
  audit_logs = record { order_id = 21; actor_id = 3; action = payment_recorded (pos 40_000) } ∷ [];
}

driver_records :
    record_payment 70 33 21 (pos 40_000) cash petr none none books
    ≡ ok (home_books, (33, home_payment))
unfolding record_payment pay recompute_and_save recomputed compute_payment_status ◌+ℤ◌
driver_records = refl

abbrev cancelled_bill : Payment
cancelled_bill = cancelled_payment (codes "stamp") none paid_bill

abbrev cancelled_books : Books
cancelled_books = record settled_books {
  orders =
      (20, record prepaid_order { payment_status = unpaid; shipment_override = none })
      ∷ (21, home_order)
      ∷ [];
  payments = (30, cancelled_bill) ∷ [];
  status_logs =
      record { order_id = 20; from_status = some new; to_status = new; changed_by_id = 1 } ∷ [];
  audit_logs =
      record { order_id = 20; actor_id = 1; action = payment_recorded (pos 100_000) }
      ∷ record { order_id = 20; actor_id = 1; action = payment_cancelled (pos 100_000) }
      ∷ [];
}

cancels :
    cancel_payment (codes "stamp") 30 boss none settled_books ≡ ok (cancelled_books, cancelled_bill)
unfolding cancel_payment recompute_and_save recomputed compute_payment_status ◌+ℤ◌
cancels = refl

cancel_payment_total_example :
    (get_paid_total 20 cancelled_books.payments
      ≡ get_paid_total 20 settled_books.payments -ℤ pos 100_000)
    × (cancel_payment (codes "later") 30 boss (some (codes "why")) cancelled_books
        ≡ ok (cancelled_books, cancelled_bill))
cancel_payment_total_example =
    cancel_payment_total (codes "stamp") (codes "later") 30 20 boss boss none (some (codes "why"))
      settled_books cancelled_books paid_bill cancelled_bill refl refl cancels
