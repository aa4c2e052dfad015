-- ===== src/Organizations/Edit.antt =====
-- The edits of an organization, in app/services/organization_service.py and, for who may set the
-- prices, app/routers/organizations.py.
use balt_oil.Organizations.Defs.{Organization, Registry, get_org_or_404, require_org_admin}
use balt_oil.Service.{
  Result, TokenUser, err, forbidden, internal_error, is_admin, ok, raise_if, ◌>>=◌, ◌>>◌,
}
use balt_oil.Table.{put}
use balt_oil.Text.{Text}
use balt_oil.Prelude.{Bool, Option, none, not, or_default, some, true, ℕ}

-- Every field is absent, null or a text.
pub record UpdateOrganizationRequest : Type 0 where
  pub company_name : Option (Option Text)
  pub kpp : Option (Option Text)
  pub legal_address : Option (Option Text)
  pub delivery_address : Option (Option Text)
  pub bank_name : Option (Option Text)
  pub bik : Option (Option Text)
  pub bank_account : Option (Option Text)
  pub correspondent_account : Option (Option Text)
  pub contract_number : Option (Option Text)
  pub billing_email : Option (Option Text)
  pub director_name : Option (Option Text)
  pub swift : Option (Option Text)

-- A column that may not be NULL: an absent field leaves it, null is refused by the database.
abbrev pub not_null {ℓ} : {A : Type ℓ} → Option (Option A) → A → Result A
not_null none old = ok old
not_null (some none) old = err internal_error
not_null (some (some new)) old = ok new

abbrev pub save : ℕ → Organization → Registry → Registry
save k org s = record s { organizations = put k org s.organizations }

unfoldable pub update_organization :
    ℕ → TokenUser → UpdateOrganizationRequest → Registry → Result Registry
unfolding require_org_admin
update_organization k actor u s = do
  org ← require_org_admin k actor s
  name ← not_null u.company_name org.company_name
  let org' : Organization = record org {
    company_name = name;
    kpp = or_default u.kpp org.kpp;
    legal_address = or_default u.legal_address org.legal_address;
    delivery_address = or_default u.delivery_address org.delivery_address;
    bank_name = or_default u.bank_name org.bank_name;
    bik = or_default u.bik org.bik;
    bank_account = or_default u.bank_account org.bank_account;
    correspondent_account = or_default u.correspondent_account org.correspondent_account;
    contract_number = or_default u.contract_number org.contract_number;
    billing_email = or_default u.billing_email org.billing_email;
    director_name = or_default u.director_name org.director_name;
    swift = or_default u.swift org.swift;
  }
  ok (save k org' s)

pub record UpdateOrganizationCommercialRequest : Type 0 where
  pub tariff_id : Option (Option ℕ)
  pub credit_allowed : Option (Option Bool)
  pub credit_limit : Option (Option ℕ)
  pub fuel_coefficient : Option (Option ℕ)
  pub delivery_coefficient : Option (Option ℕ)

-- The route is open to administrators only.
unfoldable pub update_commercial :
    ℕ → TokenUser → UpdateOrganizationCommercialRequest → Registry → Result Registry
update_commercial k actor u s = do
  raise_if (not (is_admin actor.role)) forbidden
  org ← get_org_or_404 k s
  allowed ← not_null u.credit_allowed org.credit_allowed
  fuel ← not_null u.fuel_coefficient org.fuel_coefficient
  delivery ← not_null u.delivery_coefficient org.delivery_coefficient
  let org' : Organization = record org {
    tariff_id = or_default u.tariff_id org.tariff_id;
    credit_allowed = allowed;
    credit_limit = or_default u.credit_limit org.credit_limit;
    fuel_coefficient = fuel;
    delivery_coefficient = delivery;
  }
  ok (save k org' s)

unfoldable pub archive_organization : ℕ → ℕ → TokenUser → Registry → Result Registry
unfolding require_org_admin
archive_organization now k actor s = do
  org ← require_org_admin k actor s
  ok (save k (record org { is_archived = true; archived_at = some now }) s)
