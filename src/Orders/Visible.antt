-- ===== src/Orders/Visible.antt =====
-- `get_order` against the conditions of the lists.
use balt_oil.Orders.Access.{get_order, is_visible}
use balt_oil.Payments.Ops.{live_order}
use balt_oil.Payments.Defs.{Books, Order}
use balt_oil.Service.{TokenUser, err, forbidden, ok}
use balt_oil.Prelude.{[], arith, if◌then◌else◌, none, some, ℕ, ◌≡◌}

-- An order that is not archived is shown by itself exactly when the list shows it to the same user
-- as a member of no organization: the organizations that the list counts in give no access to it.
pub get_order-visible :
    (k : ℕ) (actor : TokenUser) (b : Books) (o : Order)
    → live_order k b.orders ≡ some o
    → get_order k actor b ≡ (if is_visible actor [] none o then ok o else err forbidden)
unfolding get_order is_visible
get_order-visible k actor b o live = ground arith
