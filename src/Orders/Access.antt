-- ===== src/Orders/Access.antt =====
-- Who sees an order: `get_order`, `_visibility_conditions`, `list_orders`, `count_orders_by_status`.
use balt_oil.Orders.Defs.{Replies, is_assigned_only, is_new, is_transport, same_kind, same_status}
use balt_oil.Payments.Ops.{live_order}
use balt_oil.Payments.Defs.{Books, Order, OrderKind, OrderStatus}
use balt_oil.Table.{Table, count_rows}
use balt_oil.Service.{
  Result, Role, TokenUser, forbidden, is_client, is_driver, is_staff, not_found, ok, or_raise,
  raise_if, ◌>>=◌, ◌>>◌,
}
use balt_oil.Prelude.{
  Bool, List, Option, [], any, false, if◌then◌else◌, is_some, none, not, same_id, some, true, ℕ,
  ◌&&◌, ◌==◌, ◌||◌, ◌∷◌,
}

unfoldable pub get_order : ℕ → TokenUser → Books → Result Order
get_order k actor b = do
  o ← or_raise (live_order k b.orders) not_found
  raise_if (is_client actor.role && not (o.client_id == actor.id)) forbidden
  raise_if (is_client actor.role && is_transport o.order_kind) forbidden
  let is_assigned = same_id o.driver_id actor.id
  let is_free_new = is_new o.status && not (is_some o.driver_id)
  raise_if (is_driver actor.role && is_assigned_only o.order_kind && not is_assigned) forbidden
  raise_if
      (is_driver actor.role
        && not (is_assigned_only o.order_kind)
        && not is_assigned
        && not is_free_new)
      forbidden
  ok o

abbrev pub in_ids : Option ℕ → List ℕ → Bool
in_ids none ids = false
in_ids (some i) ids = any (λ j. i == j) ids

abbrev pub of_kind : Option OrderKind → Order → Bool
of_kind none o = true
of_kind (some kind) o = same_kind o.order_kind kind

-- `_visibility_conditions`
unfoldable pub is_visible : TokenUser → List ℕ → Option OrderKind → Order → Bool
is_visible actor org_ids kind o = not o.is_archived && of_kind kind o && elim actor.role [
  | Role.client ↦
      not (is_transport o.order_kind)
      && (o.client_id == actor.id || in_ids o.organization_id org_ids)
  | Role.driver ↦
      same_id o.driver_id actor.id
      || (is_new o.status && not (is_some o.driver_id) && not (is_assigned_only o.order_kind))
  | _ ↦ true
]

abbrev pub own_organizations : Replies → TokenUser → List ℕ
own_organizations r actor = if is_client actor.role then r.organization_ids actor.id else []

abbrev pub meets_filter : (ℕ → Bool) → Option ℕ → Bool
meets_filter test none = true
meets_filter test (some wanted) = test wanted

abbrev pub meets_status : Option OrderStatus → Order → Bool
meets_status none o = true
meets_status (some status) o = same_status o.status status

abbrev pub keep_rows : (Order → Bool) → Table Order → Table Order
keep_rows p [] = []
keep_rows p ((j, o) ∷ t) = if p o then (j, o) ∷ keep_rows p t else keep_rows p t

abbrev pub is_listed :
    TokenUser → List ℕ → Option OrderStatus → Option ℕ → Option ℕ → Option OrderKind → Order → Bool
is_listed actor org_ids status driver_id client_id kind o =
    is_visible actor org_ids kind o
    && meets_status status o
    && (not (is_staff actor.role) || meets_filter (same_id o.driver_id) driver_id)
    && (not (is_staff actor.role) || meets_filter (λ c. o.client_id == c) client_id)

-- `list_orders`, before the order by time and the page.
unfoldable pub list_orders :
    Replies
    → TokenUser
    → Option OrderStatus
    → Option ℕ
    → Option ℕ
    → Option OrderKind
    → Books
    → Table Order
list_orders r actor status driver_id client_id kind b =
    keep_rows (is_listed actor (own_organizations r actor) status driver_id client_id kind) b.orders

unfoldable pub count_orders_by_status :
    Replies → TokenUser → Option OrderKind → OrderStatus → Books → ℕ
count_orders_by_status r actor kind status b =
    count_rows
      (λ o. is_visible actor (own_organizations r actor) kind o && same_status o.status status)
      b.orders
