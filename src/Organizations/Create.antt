-- ===== src/Organizations/Create.antt =====
-- The creation of an organization, in app/services/organization_service.py. What the directory of
-- companies answers (lookup_by_inn and lookup_by_bik of dadata_service.py, which ask DaData, and
-- nothing without a key) is an argument.
use balt_oil.Organizations.Defs.{Account, Organization, OrganizationMember, Registry, active, owner}
use balt_oil.Service.{
  Result, TokenUser, conflict, is_client, is_staff, not_found, ok, raise_if, ◌>>=◌, ◌>>◌,
}
use balt_oil.Table.{Table, lookup, put}
use balt_oil.Text.{Text}
use balt_oil.Prelude.{
  Bool, Option, [], false, if◌then◌else◌, is_some, none, not, or_default, some, true, ℕ, ◌∷◌,
}

abbrev pub no_text : Option Text → Bool
no_text none = true
no_text (some []) = true
no_text (some (c ∷ t)) = false

-- The typed text before that of the directory.
abbrev pub pick : Option Text → Option Text → Option Text
pick manual dadata = if no_text manual then dadata else manual

-- The texts that `lookup_by_inn` answers; `{}` has none.
pub record Party : Type 0 where
  pub company_name : Option Text
  pub kpp : Option Text
  pub ogrn : Option Text
  pub legal_address : Option Text
  pub okved : Option Text
  pub okpo : Option Text
  pub okato : Option Text
  pub fns_status : Option Text
  pub director_name : Option Text

pub record Bank : Type 0 where
  pub bank_name : Option Text
  pub correspondent_account : Option Text
  pub swift : Option Text

abbrev pub no_party : Party
no_party = record {
  company_name = none;
  kpp = none;
  ogrn = none;
  legal_address = none;
  okved = none;
  okpo = none;
  okato = none;
  fns_status = none;
  director_name = none;
}

abbrev pub no_bank : Bank
no_bank = record { bank_name = none; correspondent_account = none; swift = none }

pub record CreateOrganizationRequest : Type 0 where
  pub inn : Text
  pub bik : Option Text
  pub company_name : Option Text
  pub kpp : Option Text
  pub ogrn : Option Text
  pub legal_address : Option Text
  pub delivery_address : Option Text
  pub bank_name : Option Text
  pub bank_account : Option Text
  pub correspondent_account : Option Text
  pub contract_number : Option Text
  pub billing_email : Option Text
  pub owner_client_id : Option ℕ

abbrev pub organization_from :
    ℕ → CreateOrganizationRequest → Option Party → Bank → Text → Organization
organization_from now data' found bank name =
    let party = or_default found no_party in
    record {
      company_name = name;
      inn = some data'.inn;
      kpp = pick data'.kpp party.kpp;
      ogrn = pick data'.ogrn party.ogrn;
      legal_address = pick data'.legal_address party.legal_address;
      delivery_address = data'.delivery_address;
      bank_name = pick data'.bank_name bank.bank_name;
      bik = data'.bik;
      bank_account = data'.bank_account;
      correspondent_account = pick data'.correspondent_account bank.correspondent_account;
      swift = bank.swift;
      contract_number = data'.contract_number;
      billing_email = data'.billing_email;
      okved = party.okved;
      okpo = party.okpo;
      okato = party.okato;
      fns_status = party.fns_status;
      director_name = party.director_name;
      fns_last_sync_at = if is_some found then some now else none;
      tariff_id = none;
      credit_allowed = false;
      credit_limit = none;
      fuel_coefficient = 1000;
      delivery_coefficient = 1000;
      is_archived = false;
      archived_at = none;
    }

abbrev pub is_client_account : Option Account → Bool
is_client_account none = false
is_client_account (some u) = is_client u.role

-- Whom the organization is for: the staff name a client or nobody, all others themselves.
abbrev pub first_owner : TokenUser → Option ℕ → Registry → Result (Option ℕ)
first_owner actor chosen s =
    if is_staff actor.role
    then elim chosen [
      | none ↦ ok none
      | some k ↦ raise_if (not (is_client_account (lookup k s.users))) not_found >> ok (some k)
    ]
    else ok (some actor.id)

abbrev pub owner_row : ℕ → ℕ → OrganizationMember
owner_row org_id user = record {
  organization_id = org_id;
  user_id = some user;
  invite_phone = none;
  member_role = owner;
  status = active;
}

abbrev pub with_owner : ℕ → ℕ → Option ℕ → Table OrganizationMember → Table OrganizationMember
with_owner member_id org_id none t = t
with_owner member_id org_id (some user) t = put member_id (owner_row org_id user) t

unfoldable pub create_organization :
    ℕ
    → ℕ
    → ℕ
    → Option Party
    → Option Bank
    → TokenUser
    → CreateOrganizationRequest
    → Registry
    → Result Registry
create_organization now id member_id party bank actor data' s = do
  let name = pick data'.company_name (or_default party no_party).company_name
  raise_if (no_text name) conflict
  let org = organization_from now data' party (or_default bank no_bank) (or_default name [])
  first ← first_owner actor data'.owner_client_id s
  ok (record s {
    organizations = put id org s.organizations;
    members = with_owner member_id id first s.members;
  })
