-- ===== src/Orders/Waybills.antt =====
-- The numbers of the waybills.
use balt_oil.Orders.Numbers.{counter_key, generate_ttn_number, next_seq}
use balt_oil.Payments.Defs.{TtnKind, issued, ttn_company, ttn_individual, ttn_special}
use balt_oil.Table.{Table, lookup, lookup-put}
use balt_oil.Prelude.{
  or_default, ℕ, ◌+◌, ◌≡◌, Bool, Option-cases, arith, false, if◌then◌else◌, inl, inr, true, ◌&&◌,
  ◌==◌,
}

-- The counter of a kind and a year is at the last number that it gave.
abbrev pub last_of : TtnKind → ℕ → Table ℕ → ℕ
last_of kind year counters = or_default (lookup (counter_key kind year) counters) 0

abbrev pub same_ttn : TtnKind → TtnKind → Bool
same_ttn ttn_company ttn_company = true
same_ttn ttn_individual ttn_individual = true
same_ttn ttn_special ttn_special = true
same_ttn _ _ = false

counter_key-same :
    (kind kind' : TtnKind) (year year' : ℕ)
    → (counter_key kind year == counter_key kind' year') ≡ (same_ttn kind kind' && year == year')
unfolding counter_key
counter_key-same kind kind' year year' = ground arith

-- A number that a counter gives is one above the last one of its kind and year, and it is the last
-- one from then on; the counters of the other kinds and years stay.
pub generate_ttn_number-next :
    (kind kind' : TtnKind) (year year' : ℕ) (counters : Table ℕ)
    → let given_ = generate_ttn_number kind year counters in
      (given_.0 ≡ issued kind year (last_of kind year counters + 1))
      × (last_of kind' year' given_.1 ≡ (
          if same_ttn kind kind' && year == year'
          then last_of kind year counters + 1
          else last_of kind' year' counters))
unfolding generate_ttn_number
generate_ttn_number-next kind kind' year year' counters =
    let key = counter_key kind year in
    let same = counter_key-same kind kind' year year' in
    let kept = lookup-put key (counter_key kind' year') (next_seq key counters) counters in
    elim (Option-cases (lookup key counters)) [
      | inl unused ↦ (ground arith, ground arith)
      | inr (last, used) ↦ (ground arith, ground arith)
    ]
