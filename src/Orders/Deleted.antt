-- ===== src/Orders/Deleted.antt =====
-- What is left of an order that is deleted.
use balt_oil.Orders.Requests.{hard_delete_order}
use balt_oil.Payments.Ops.{get_paid_total}
use balt_oil.Payments.Defs.{Books, Payment}
use balt_oil.Table.{
  Table, count_rows, drop_rows, lookup, lookup-remove_ne, lookup-remove_self, remove,
}
use balt_oil.Service.{
  Post, Post_ok, TokenUser, ends, forbidden, is_admin, not_found, ok, or_raise-Post, raise_if-Post,
}
use balt_oil.Prelude.Int.{int_laws}
use balt_oil.Prelude.{
  Bool, List, Option, [], arith, count, keep, none, not, refl, same_id, ℕ, ◌==◌, ◌∷◌, ◌≡◌, ◌≢◌,
}

hard_delete_order-stores :
    (k : ℕ) (actor : TokenUser) (b : Books)
    → Post
        (λ done.
          (done.0.orders ≡ remove k b.orders)
          × (done.0.payments ≡ drop_rows (λ p. p.order_id == k) b.payments)
          × (done.0.keys ≡ drop_rows (λ i. same_id i.order_id k) b.keys)
          × (done.0.status_logs ≡ keep (λ l. not (l.order_id == k)) b.status_logs)
          × (done.0.audit_logs ≡ keep (λ l. not (l.order_id == k)) b.audit_logs))
        (hard_delete_order k actor b)
unfolding hard_delete_order
hard_delete_order-stores k actor b = raise_if-Post (not (is_admin actor.role)) forbidden λ _.
    or_raise-Post (lookup k b.orders) not_found (λ o found. ends _ (refl, refl, refl, refl, refl))

count_rows-drop_rows {ℓ} :
    {A : Type ℓ} (p : A → Bool) (t : Table A) → count_rows p (drop_rows p t) ≡ 0
count_rows-drop_rows p [] = refl
count_rows-drop_rows p ((j, a) ∷ t) = ground (arith, count_rows-drop_rows p t)

count-keep-not {ℓ} :
    {A : Type ℓ} (p : A → Bool) (xs : List A) → count p (keep (λ x. not (p x)) xs) ≡ 0
count-keep-not p [] = refl
count-keep-not p (x ∷ xs) = ground (arith, count-keep-not p xs)

get_paid_total-dropped :
    (k j : ℕ) (t : Table Payment)
    → k ≢ j
    → get_paid_total j (drop_rows (λ p. p.order_id == k) t) ≡ get_paid_total j t
get_paid_total-dropped k j [] other = refl
get_paid_total-dropped k j ((i, p) ∷ t) other = grind (int_laws, get_paid_total-dropped k j t other)

-- A deleted order leaves no row that names it, and the rows of the other orders stay.
pub hard_delete_order-clean :
    (k j : ℕ) (actor : TokenUser) (b b' : Books) (volume : Option ℕ)
    → hard_delete_order k actor b ≡ ok (b', volume)
    → (lookup k b'.orders ≡ none)
      × (count_rows (λ p. p.order_id == k) b'.payments ≡ 0)
      × (count_rows (λ i. same_id i.order_id k) b'.keys ≡ 0)
      × (count (λ l. l.order_id == k) b'.status_logs ≡ 0)
      × (count (λ l. l.order_id == k) b'.audit_logs ≡ 0)
      × (k ≢ j
          → (lookup j b'.orders ≡ lookup j b.orders)
            × (get_paid_total j b'.payments ≡ get_paid_total j b.payments))
hard_delete_order-clean k j actor b b' volume e =
    let (orders, payments, keys, status_logs, audit_logs) =
      Post_ok (hard_delete_order-stores k actor b) e in
    (
      rw orders (lookup-remove_self k b.orders),
      rw payments (count_rows-drop_rows (λ p. p.order_id == k) b.payments),
      rw keys (count_rows-drop_rows (λ i. same_id i.order_id k) b.keys),
      rw status_logs (count-keep-not (λ l. l.order_id == k) b.status_logs),
      rw audit_logs (count-keep-not (λ l. l.order_id == k) b.audit_logs),
      λ other. (
        rw orders (lookup-remove_ne k j b.orders other),
        rw payments (get_paid_total-dropped k j b.payments other),
      ),
    )
