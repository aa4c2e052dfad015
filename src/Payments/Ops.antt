-- ===== src/Payments/Ops.antt =====
-- The operations of payment_service.py. The clock, the identifier of a new row and the formatted
-- stamp of a cancellation are arguments. Sums are exact here, where the code compares some of them
-- as floats.
use balt_oil.Payments.Defs.{
  Books, IdempotencyKey, Order, OrderPayment, Payment, PaymentMethod, PaymentStatus, actual, allow,
  order_transition, fully_paid, hold, is_cancelled, is_credit, is_delivered, is_finished, is_hold,
  is_individual, is_on_delivery, is_paid, is_pending, is_settled, overpaid, paid, partially_paid,
  payment_cancelled, payment_record, payment_recorded, pending, prepayment, unpaid,
}
use balt_oil.Text.{Text, codes}
use balt_oil.Service.{
  Result, TokenUser, forbidden, is_driver, is_staff, not_found, ok, or_raise, raise_if, validation,
  ◌>>=◌, ◌>>◌,
}
use balt_oil.Table.{Table, lookup, put, sum_rows}
use balt_oil.Prelude.Int.{leb_ℤ, ltb_ℤ, pos, pos_part, ℤ, ◌-ℤ◌}
use balt_oil.Prelude.{
  Bool, Option, [], false, if◌then◌else◌, is_some, ltb, none, not, same_id, some, true, ℕ, ◌&&◌,
  ◌++◌, ◌+◌, ◌==◌, ◌||◌, ◌∷◌,
}

-- `final_amount if final_amount is not None else expected_amount`
abbrev pub target_of : Option ℤ → Option ℤ → Option ℤ
target_of expected none = expected
target_of expected (some final) = some final

abbrev pub target_amount : Order → Option ℤ
target_amount o = target_of o.expected_amount o.final_amount

unfoldable pub compute_payment_status : ℤ → Option ℤ → Option ℤ → OrderPayment
compute_payment_status paid_total expected final =
    if leb_ℤ paid_total (pos 0) then unpaid else elim (target_of expected final) [
      | none ↦ fully_paid
      | some target ↦
          if ltb_ℤ paid_total target
          then partially_paid
          else if ltb_ℤ target paid_total
          then overpaid
          else fully_paid
    ]

-- What a payment adds to the paid sum of an order.
abbrev pub paid_amount : ℕ → Payment → ℤ
paid_amount order_id p = if p.order_id == order_id && is_paid p.status then p.amount else pos 0

abbrev pub get_paid_total : ℕ → Table Payment → ℤ
get_paid_total order_id payments = sum_rows (paid_amount order_id) payments

unfoldable pub compute_shipment_allowed : Order → ℤ → Bool
compute_shipment_allowed o paid_total = elim o.shipment_override [
  | some allow ↦ true
  | some hold ↦ false
  | none ↦
      o.allow_delivery_unpaid
      || is_credit o.payment_type
      || is_on_delivery o.payment_type
      || is_settled o.payment_status
      || elim (target_amount o) [ none ↦ false | some target ↦ leb_ℤ target paid_total ]
]

-- `_attach_one`: the paid sum, the debt, whether the price is missing, and the shipment flag.
pub record PaymentTotals : Type 0 where
  pub paid_total : ℤ
  pub debt_amount : ℤ
  pub pricing_warning : Bool
  pub shipment_allowed : Bool

unfoldable pub attach_one : Order → ℤ → PaymentTotals
attach_one o paid_total = record {
  paid_total = paid_total;
  debt_amount = elim (target_amount o) [
    | none ↦ pos 0
    | some target ↦ pos (pos_part (target -ℤ paid_total))
  ];
  pricing_warning = not (is_some (target_amount o));
  shipment_allowed = compute_shipment_allowed o paid_total;
}

-- The order after a recount: its payment status, and a hold that is lifted once it is paid.
unfoldable pub recomputed : ℤ → Order → Order
recomputed paid_total o =
    let status = compute_payment_status paid_total o.expected_amount o.final_amount in
    record o {
      payment_status = status;
      shipment_override =
          if is_settled status && is_hold o.shipment_override then none else o.shipment_override;
    }

unfoldable pub recompute_and_save : ℕ → Order → Books → Books
recompute_and_save order_id o b = record b {
  orders = put order_id (recomputed (get_paid_total order_id b.payments) o) b.orders;
}

-- `f"{notes} | {mark}" if notes else mark`
abbrev pub add_note : Option Text → Text → Text
add_note none mark = mark
add_note (some []) mark = mark
add_note (some (c ∷ cs)) mark = (c ∷ cs) ++ codes " | " ++ mark

abbrev pub add_reason : Text → Option Text → Text
add_reason stamp none = stamp
add_reason stamp (some []) = stamp
add_reason stamp (some (c ∷ cs)) = stamp ++ codes ": " ++ (c ∷ cs)

abbrev pub cancelled_payment : Text → Option Text → Payment → Payment
cancelled_payment stamp reason p = record p {
  status = PaymentStatus.cancelled;
  notes = some (add_note p.notes (add_reason stamp reason));
}

unfoldable pub cancel_payment :
    Text → ℕ → TokenUser → Option Text → Books → Result (Books × Payment)
cancel_payment stamp payment_id actor reason b = do
  raise_if (not (is_staff actor.role)) forbidden
  p ← or_raise (lookup payment_id b.payments) not_found
  if is_cancelled p.status then ok (b, p) else do
    o ← or_raise (lookup p.order_id b.orders) not_found
    let p' = cancelled_payment stamp reason p
    let b' = recompute_and_save p.order_id o (record b { payments = put payment_id p' b.payments })
    ok (
      record b' {
        status_logs =
            b.status_logs
            ++ (record {
              order_id = p.order_id;
              from_status = some o.status;
              to_status = o.status;
              changed_by_id = actor.id;
            }
                ∷ []);
        audit_logs =
            b.audit_logs
            ++ (record {
              order_id = p.order_id;
              actor_id = actor.id;
              action = payment_cancelled p.amount;
            }
                ∷ []);
      },
      p',
    )

-- `basis`: "requested", "delivered", or any other text.
pub data Basis : Type 0 where
  requested by_delivery another_basis : Basis

abbrev pub is_requested : Basis → Bool
is_requested requested = true
is_requested _ = false

abbrev pub is_known : Basis → Bool
is_known another_basis = false
is_known _ = true

abbrev pub live_order : ℕ → Table Order → Option Order
live_order order_id orders = elim (lookup order_id orders) [
  | none ↦ none
  | some o ↦ if o.is_archived then none else some o
]

unfoldable pub create_invoice : ℕ → ℕ → ℕ → ℕ → Basis → TokenUser → Books → Result (Books × Payment)
create_invoice now year id order_id basis actor b = do
  raise_if (not (is_known basis)) validation
  raise_if (not (is_staff actor.role)) forbidden
  o ← or_raise (live_order order_id b.orders) not_found
  raise_if (is_requested basis && is_finished o.status) validation
  raise_if (not (is_requested basis) && not (is_some o.volume_delivered)) validation
  amount ← or_raise (if is_requested basis then o.expected_amount else o.final_amount) validation
  let p : Payment = record {
    order_id = order_id;
    client_id = o.client_id;
    kind = if is_requested basis then prepayment else actual;
    status = pending;
    method = none;
    amount = amount;
    invoice_number = some (year, b.invoice_seq);
    paid_at = none;
    notes = none;
    created_by_id = actor.id;
    created_at = now;
  }
  ok (record b { payments = put id p b.payments; invoice_seq = b.invoice_seq + 1 }, p)

-- May the actor record a payment of the order?
abbrev pub may_record : TokenUser → Order → Bool
may_record actor o =
    is_staff actor.role
    || (is_driver actor.role
        && is_individual o.order_kind
        && same_id o.driver_id actor.id
        && is_delivered o.status)

abbrev pub awaits : ℕ → Payment → Bool
awaits order_id p = p.order_id == order_id && is_pending p.status

abbrev pub later_of : ℕ × Payment → Option (ℕ × Payment) → ℕ × Payment
later_of row none = row
later_of row (some best) = if ltb row.1.created_at best.1.created_at then best else row

-- `ORDER BY created_at DESC LIMIT 1` of the pending invoices; of two of one moment the first row.
abbrev pub latest_pending : ℕ → Table Payment → Option (ℕ × Payment)
latest_pending order_id [] = none
latest_pending order_id ((j, p) ∷ t) =
    let rest = latest_pending order_id t in
    if awaits order_id p then some (later_of (j, p) rest) else rest

abbrev pub new_notes : Option Text → Option Text → Option Text
new_notes none old = old
new_notes (some []) old = old
new_notes (some (c ∷ cs)) old = some (c ∷ cs)

-- The row that records the payment: the pending invoice, or a new one.
abbrev pub settle :
    ℕ
    → ℕ
    → ℕ
    → Order
    → ℤ
    → PaymentMethod
    → TokenUser
    → Option Text
    → Option (ℕ × Payment)
    → ℕ × Payment
settle now id order_id o amount method actor notes (some (k, p)) = (
  k,
  record p {
    status = paid;
    paid_at = some now;
    method = some method;
    amount = amount;
    notes = new_notes notes p.notes;
  },
)
settle now id order_id o amount method actor notes none = (
  id,
  record {
    order_id = order_id;
    client_id = o.client_id;
    kind = actual;
    status = paid;
    method = some method;
    amount = amount;
    invoice_number = none;
    paid_at = some now;
    notes = notes;
    created_by_id = actor.id;
    created_at = now;
  },
)

-- `record_payment` behind the idempotency gate.
unfoldable pub pay :
    ℕ → ℕ → ℕ → ℤ → PaymentMethod → TokenUser → Option Text → Books → Result (Books × (ℕ × Payment))
pay now id order_id amount method actor notes b = do
  o ← or_raise (lookup order_id b.orders) not_found
  raise_if o.is_archived validation
  raise_if (not (may_record actor o)) forbidden
  let row = settle now id order_id o amount method actor notes (latest_pending order_id b.payments)
  let b' = recompute_and_save order_id o (record b { payments = put row.0 row.1 b.payments })
  ok (
    record b' {
      audit_logs =
          b.audit_logs
          ++ (record { order_id = order_id; actor_id = actor.id; action = payment_recorded amount }
              ∷ []);
    },
    row,
  )

-- The payment that a used key names.
abbrev pub cached : IdempotencyKey → Table Payment → Option (ℕ × Payment)
cached key payments = elim key.operation [
  | order_transition ↦ none
  | payment_record ↦ elim key.payment_id [
    | none ↦ none
    | some k ↦ elim (lookup k payments) [ none ↦ none | some p ↦ some (k, p) ]
  ]
]

abbrev pub claim : ℕ → Option ℕ → IdempotencyKey
claim order_id payment_id = record {
  operation = payment_record;
  order_id = some order_id;
  payment_id = payment_id;
}

-- The key is claimed first and bound to the payment at the end; a used key answers with its
-- payment or refuses.
unfoldable pub record_payment :
    ℕ
    → ℕ
    → ℕ
    → ℤ
    → PaymentMethod
    → TokenUser
    → Option Text
    → Option ℕ
    → Books
    → Result (Books × (ℕ × Payment))
record_payment now id order_id amount method actor notes none b =
    pay now id order_id amount method actor notes b
record_payment now id order_id amount method actor notes (some key) b = elim (lookup key b.keys) [
  | some used ↦ or_raise (cached used b.payments) validation >>= λ (row : ℕ × Payment). ok (b, row)
  | none ↦ do
    done ←
        pay now id order_id amount method actor notes
          (record b { keys = put key (claim order_id none) b.keys })
    let keys = put key (claim order_id (some done.1.0)) done.0.keys
    ok (record done.0 { keys = keys }, done.1)
]
