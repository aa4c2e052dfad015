-- ===== src/Organizations/Defs.antt =====
-- Rows of app/models/organization.py of auth_service, and the columns of app/models/user.py that the
-- organizations read. Coefficients are thousandths, the credit limit is in kopecks. The number of an
-- organization, drawn from a sequence, and the times of creation and of the last change are left out.
use balt_oil.Service.{
  Result, Role, TokenUser, forbidden, is_staff, not_found, ok, or_raise, raise_if,
  scalar_one_or_none, ◌>>=◌, ◌>>◌,
}
use balt_oil.Table.{Table, count_rows, lookup}
use balt_oil.Text.{Text, ◌=text◌}
use balt_oil.Prelude.{
  Bool, List, Option, [], false, if◌then◌else◌, is_some, none, not, same_id, some, true, ℕ, ◌&&◌,
  ◌==◌, ◌∷◌,
}

pub data MemberRole : Type 0 where
  owner member : MemberRole

pub data MemberStatus : Type 0 where
  active pending : MemberStatus

pub record Organization : Type 0 where
  pub company_name : Text
  pub inn : Option Text
  pub kpp : Option Text
  pub ogrn : Option Text
  pub legal_address : Option Text
  pub delivery_address : Option Text
  pub bank_name : Option Text
  pub bik : Option Text
  pub bank_account : Option Text
  pub correspondent_account : Option Text
  pub swift : Option Text
  pub contract_number : Option Text
  pub billing_email : Option Text
  pub okved : Option Text
  pub okpo : Option Text
  pub okato : Option Text
  pub fns_status : Option Text
  pub director_name : Option Text
  pub fns_last_sync_at : Option ℕ
  pub tariff_id : Option ℕ
  pub credit_allowed : Bool
  pub credit_limit : Option ℕ
  pub fuel_coefficient : ℕ
  pub delivery_coefficient : ℕ
  pub is_archived : Bool
  pub archived_at : Option ℕ

pub record OrganizationMember : Type 0 where
  pub organization_id : ℕ
  pub user_id : Option ℕ
  pub invite_phone : Option Text
  pub member_role : MemberRole
  pub status : MemberStatus

pub record Account : Type 0 where
  pub role : Role
  pub phone : Option Text
  pub is_active : Bool
  pub is_archived : Bool

pub record Registry : Type 0 where
  pub organizations : Table Organization
  pub members : Table OrganizationMember
  pub users : Table Account

abbrev pub is_owner : MemberRole → Bool
is_owner owner = true
is_owner member = false

abbrev pub is_live : MemberStatus → Bool
is_live active = true
is_live pending = false

-- The rows that the code counts and looks for as the owners of an organization.
abbrev pub active_owner : ℕ → OrganizationMember → Bool
active_owner k row = row.organization_id == k && is_owner row.member_role && is_live row.status

abbrev pub owners : ℕ → Registry → ℕ
owners k s = count_rows (active_owner k) s.members

abbrev pub same_text : Option Text → Text → Bool
same_text none t = false
same_text (some a) t = a =text t

-- The rows that meet a condition, without their keys.
abbrev pub rows_where {ℓ} : {A : Type ℓ} → (A → Bool) → Table A → List A
rows_where p [] = []
rows_where p ((j, a) ∷ t) = let rest = rows_where p t in if p a then a ∷ rest else rest

abbrev pub is_membership : ℕ → ℕ → OrganizationMember → Bool
is_membership org_id user_id row =
    row.organization_id == org_id && same_id row.user_id user_id && is_live row.status

-- Two memberships of one user are an exception.
unfoldable pub get_membership : ℕ → ℕ → Registry → Result (Option OrganizationMember)
get_membership org_id user_id s =
    scalar_one_or_none (rows_where (is_membership org_id user_id) s.members)

abbrev pub get_org_or_404 : ℕ → Registry → Result Organization
get_org_or_404 org_id s = or_raise (lookup org_id s.organizations) not_found

unfoldable pub require_member : ℕ → TokenUser → Registry → Result Organization
unfolding get_membership
require_member org_id user s = do
  org ← get_org_or_404 org_id s
  if is_staff user.role
      then ok org
      else do m ← get_membership org_id user.id s; raise_if (not (is_some m)) forbidden; ok org

abbrev pub owns : Option OrganizationMember → Bool
owns none = false
owns (some row) = is_owner row.member_role

unfoldable pub require_org_admin : ℕ → TokenUser → Registry → Result Organization
unfolding get_membership
require_org_admin org_id user s = do
  org ← get_org_or_404 org_id s
  if is_staff user.role
      then ok org
      else do m ← get_membership org_id user.id s; raise_if (not (owns m)) forbidden; ok org
