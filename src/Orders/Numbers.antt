-- ===== src/Orders/Numbers.antt =====
-- app/services/order_number.py and ttn_number.py: the numbers of the orders and of the waybills, by
-- the counters of order_kind_counters.
use balt_oil.Payments.Defs.{
  OrderKind, TtnKind, TtnNumber, company, individual, issued, transport, ttn_company,
  ttn_individual, ttn_l, ttn_special,
}
use balt_oil.Table.{Table, lookup, put}
use balt_oil.Prelude.{none, some, ℕ, ◌*◌, ◌+◌}

-- The key of a counter, as a number: the four kinds of orders, then three rows for each year.
abbrev pub kind_index : OrderKind → ℕ
kind_index individual = 0
kind_index company = 1
kind_index ttn_l = 2
kind_index transport = 3

abbrev pub ttn_index : TtnKind → ℕ
ttn_index ttn_company = 0
ttn_index ttn_individual = 1
ttn_index ttn_special = 2

unfoldable pub counter_key : TtnKind → ℕ → ℕ
counter_key kind year = 4 + 3 * year + ttn_index kind

-- `INSERT … ON CONFLICT DO UPDATE … RETURNING last_seq`
abbrev pub next_seq : ℕ → Table ℕ → ℕ
next_seq key counters = elim (lookup key counters) [ none ↦ 1 | some last ↦ last + 1 ]

unfoldable pub generate_order_number : OrderKind → Table ℕ → (OrderKind × ℕ) × Table ℕ
generate_order_number kind counters =
    let seq = next_seq (kind_index kind) counters in
    ((kind, seq), put (kind_index kind) seq counters)

abbrev pub resolve_ttn_kind : OrderKind → TtnKind
resolve_ttn_kind company = ttn_company
resolve_ttn_kind individual = ttn_individual
resolve_ttn_kind ttn_l = ttn_special
resolve_ttn_kind transport = ttn_company

unfoldable pub generate_ttn_number : TtnKind → ℕ → Table ℕ → TtnNumber × Table ℕ
generate_ttn_number kind year counters =
    let key = counter_key kind year in
    let seq = next_seq key counters in (issued kind year seq, put key seq counters)
