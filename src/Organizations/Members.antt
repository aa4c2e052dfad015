-- ===== src/Organizations/Members.antt =====
-- The members of an organization, in app/services/organization_service.py. `id` is the identifier of
-- the new row; the two tests on digits are those of Organizations.Phone.
use balt_oil.Organizations.Create.{no_text}
use balt_oil.Organizations.Phone.{normalize_phone, normalized_phone_column}
use balt_oil.Organizations.Defs.{
  Account, OrganizationMember, Registry, active, active_owner, get_membership, get_org_or_404,
  is_live, is_owner, member, owner, owners, pending, require_org_admin, rows_where, same_text,
}
use balt_oil.Service.{
  Result, TokenUser, conflict, forbidden, is_staff, not_found, ok, or_raise, raise_if,
  scalar_one_or_none, ◌>>=◌, ◌>>◌,
}
use balt_oil.Table.{count_rows, find_row, lookup, map_rows, put, remove}
use balt_oil.Text.{Text, ◌=text◌}
use balt_oil.Prelude.{
  Bool, Option, false, if◌then◌else◌, is_some, leb, length, ltb, none, not, some, ℕ, ◌&&◌, ◌==◌,
  ◌||◌,
}

-- `normalized_phone_column(User.phone) == norm`; NULL meets nothing.
abbrev pub has_number : (ℕ → Bool) → Text → Option Text → Bool
unfolding normalized_phone_column
has_number sql_digit norm none = false
has_number sql_digit norm (some phone) = normalized_phone_column sql_digit phone =text norm

abbrev pub is_reachable : (ℕ → Bool) → Text → ℕ → Account → Bool
is_reachable sql_digit norm k u =
    has_number sql_digit norm u.phone && u.is_active && not u.is_archived

abbrev pub invited : Text → OrganizationMember → Bool
invited norm row = same_text row.invite_phone norm && not (is_live row.status)

abbrev pub is_invite : ℕ → Text → OrganizationMember → Bool
is_invite org_id norm row = row.organization_id == org_id && invited norm row

abbrev pub active_row : ℕ → ℕ → OrganizationMember
active_row org_id user = record {
  organization_id = org_id;
  user_id = some user;
  invite_phone = none;
  member_role = member;
  status = active;
}

abbrev pub invite_row : ℕ → Text → OrganizationMember
invite_row org_id norm = record {
  organization_id = org_id;
  user_id = none;
  invite_phone = some norm;
  member_role = member;
  status = pending;
}

-- The row for the account that has the number, or for the number if there is none.
unfoldable pub new_member : ℕ → Text → Registry → Option (ℕ × Account) → Result OrganizationMember
unfolding get_membership
new_member org_id norm s (some (user, account)) = do
  held ← get_membership org_id user s
  raise_if (is_some held) conflict
  ok (active_row org_id user)
new_member org_id norm s none = do
  dup ← scalar_one_or_none (rows_where (is_invite org_id norm) s.members)
  raise_if (is_some dup) conflict
  ok (invite_row org_id norm)

unfoldable pub add_member :
    (ℕ → Bool) → (ℕ → Bool) → ℕ → ℕ → TokenUser → Text → Registry → Result Registry
unfolding require_org_admin normalize_phone new_member
add_member python_digit sql_digit id org_id actor phone s = do
  org ← require_org_admin org_id actor s
  let norm = normalize_phone python_digit (some phone)
  raise_if (ltb (length norm) 10) conflict
  row ← new_member org_id norm s (find_row (is_reachable sql_digit norm) s.users)
  ok (record s { members = put id row s.members })

-- `select(OrganizationMember).where(id == member_id, organization_id == org_id)`
abbrev pub in_org : ℕ → Option OrganizationMember → Option OrganizationMember
in_org org_id none = none
in_org org_id (some row) = if row.organization_id == org_id then some row else none

abbrev pub member_of : ℕ → ℕ → Registry → Option OrganizationMember
member_of org_id member_id s = in_org org_id (lookup member_id s.members)

unfoldable pub remove_member : ℕ → ℕ → TokenUser → Registry → Result Registry
unfolding require_org_admin
remove_member org_id member_id actor s = do
  org ← require_org_admin org_id actor s
  row ← or_raise (member_of org_id member_id s) not_found
  raise_if (is_owner row.member_role && leb (owners org_id s) 1) conflict
  ok (record s { members = remove member_id s.members })

-- The owners so far become members.
abbrev pub demote : ℕ → ℕ → OrganizationMember → OrganizationMember
demote org_id k row = if active_owner org_id row then record row { member_role = member } else row

unfoldable pub set_owner : ℕ → ℕ → TokenUser → Registry → Result Registry
set_owner org_id member_id actor s = do
  raise_if (not (is_staff actor.role)) forbidden
  org ← get_org_or_404 org_id s
  row ← or_raise (member_of org_id member_id s) not_found
  raise_if (not (is_live row.status) || not (is_some row.user_id)) conflict
  let promoted = record row { member_role = owner }
  let s' = record s { members = put member_id promoted (map_rows (demote org_id) s.members) }
  ok (if is_owner row.member_role then s else s')

abbrev pub link : ℕ → Text → ℕ → OrganizationMember → OrganizationMember
link user norm k row =
    if invited norm row
    then record row { user_id = some user; status = active; invite_phone = none }
    else row

-- Called when the user has just registered with the number `phone`; also the number of invitations.
unfoldable pub link_pending_invites : (ℕ → Bool) → ℕ → Option Text → Registry → Registry × ℕ
unfolding normalize_phone
link_pending_invites python_digit user phone s =
    let norm = normalize_phone python_digit phone in
    if no_text phone || ltb (length norm) 10 then (s, 0) else (
      record s { members = map_rows (link user norm) s.members },
      count_rows (invited norm) s.members,
    )
