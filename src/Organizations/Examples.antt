-- ===== src/Organizations/Examples.antt =====
-- Tests of the organizations, and their theorems at concrete inputs: the organization 1 of the user
-- 100, in which the user 101 is a member.
use balt_oil.Prelude.{
  Bool, Option, [], arith, false, leb, none, refl, some, true, ℕ, ◌&&◌, ◌∷◌, ◌≡◌, ◌≤◌, ◌||◌,
}
use balt_oil.Organizations.Again.{add_member_again}
use balt_oil.Organizations.Invites.{add_member-link_pending_invites}
use balt_oil.Organizations.Owner.{OrgReach-OneOwner, member_removed, owner_set, start, then_}
use balt_oil.Organizations.OwnerRows.{OneOwner}
use balt_oil.Organizations.Members.{
  active_row, add_member, invite_row, is_reachable, link_pending_invites, new_member, remove_member,
  set_owner,
}
use balt_oil.Organizations.Create.{
  CreateOrganizationRequest, create_organization, no_bank, organization_from, owner_row,
}
use balt_oil.Organizations.Defs.{
  Account, Organization, Registry, get_membership, owners, require_org_admin,
}
use balt_oil.Organizations.Phone.{normalize_phone, normalize_phone-column, normalized_phone_column}
use balt_oil.Service.{Role, TokenUser, conflict, err, ok}
use balt_oil.Table.{find_row}
use balt_oil.Text.{Text, codes}

abbrev ascii_digit : ℕ → Bool
ascii_digit c = leb 48 c && leb c 57

-- With the Arabic-Indic digits.
abbrev unicode_digit : ℕ → Bool
unicode_digit c = ascii_digit c || (leb 1632 c && leb c 1641)

abbrev typed : Text
typed = codes "+7 (999) 123-45-67"

abbrev written : Text
written = codes "89991234567"

abbrev anna : TokenUser
anna = record { id = 1; role = Role.manager }

abbrev olga : TokenUser
olga = record { id = 100; role = Role.client }

abbrev pavel : TokenUser
pavel = record { id = 101; role = Role.client }

abbrev account : Option Text → Account
account number = record {
  role = Role.client;
  phone = number;
  is_active = true;
  is_archived = false;
}

abbrev asked : CreateOrganizationRequest
asked = record {
  inn = codes "7812345678";
  bik = none;
  company_name = some (codes "SZTK");
  kpp = none;
  ogrn = none;
  legal_address = none;
  delivery_address = none;
  bank_name = none;
  bank_account = none;
  correspondent_account = none;
  contract_number = none;
  billing_email = none;
  owner_client_id = none;
}

abbrev sztk : Organization
sztk = organization_from 5 asked none no_bank (codes "SZTK")

abbrev registry : Registry
registry = record {
  organizations = (1, sztk) ∷ [];
  members = (10, owner_row 1 100) ∷ (11, active_row 1 101) ∷ [];
  users = (100, account none) ∷ (101, account (some (codes "+79990000000"))) ∷ [];
}

abbrev handed_over : Registry
handed_over = record registry { members = (10, active_row 1 100) ∷ (11, owner_row 1 101) ∷ [] }

abbrev left : Registry
left = record registry { members = (11, owner_row 1 101) ∷ [] }

abbrev called : Registry
called = record registry {
  members =
      (10, owner_row 1 100) ∷ (11, active_row 1 101) ∷ (12, invite_row 1 (codes "9991234567")) ∷ [];
}

typed_norm : normalize_phone ascii_digit (some typed) ≡ codes "9991234567"
unfolding normalize_phone
typed_norm = refl

created_empty :
    create_organization 5 1 10 none none olga asked
      (record { organizations = []; members = []; users = [] })
    ≡ ok (record {
      organizations = (1, sztk) ∷ [];
      members = (10, owner_row 1 100) ∷ [];
      users = [];
    })
unfolding create_organization
created_empty = refl

last_owner_stays : remove_member 1 10 anna registry ≡ err conflict
unfolding remove_member require_org_admin
last_owner_stays = refl

set_11 : set_owner 1 11 anna registry ≡ ok handed_over
unfolding set_owner
set_11 = refl

removed_10 : remove_member 1 10 pavel handed_over ≡ ok left
unfolding remove_member require_org_admin get_membership
removed_10 = refl

added_12 : add_member ascii_digit ascii_digit 12 1 olga typed registry ≡ ok called
unfolding add_member require_org_admin get_membership new_member normalize_phone
    normalized_phone_column
added_12 = refl

OrgReach-OneOwner_example : OneOwner 1 left × (owners 1 registry ≤ owners 1 left)
OrgReach-OneOwner_example =
    OrgReach-OneOwner 1 {s = registry} {s' = left} ((refl, (refl, tt)), refl, omega arith)
      (then_ (then_ start (owner_set 1 11 anna set_11)) (member_removed 1 10 pavel removed_10))

normalize_phone-column_example :
    normalize_phone unicode_digit (some written) ≡ normalized_phone_column ascii_digit written
normalize_phone-column_example =
    normalize_phone-column unicode_digit ascii_digit written
      (refl, (refl, (refl, (refl, (refl, (refl, (refl, (refl, (refl, (refl, (refl, tt)))))))))))

same_number : normalize_phone ascii_digit (some written) ≡ normalize_phone ascii_digit (some typed)
unfolding normalize_phone
same_number = refl

unknown_number :
    find_row (is_reachable ascii_digit (normalize_phone ascii_digit (some typed))) registry.users
    ≡ none
unfolding normalize_phone normalized_phone_column
unknown_number = refl

no_membership : get_membership 1 102 registry ≡ ok none
unfolding get_membership
no_membership = refl

add_member-link_pending_invites_example :
    get_membership 1 102 (link_pending_invites ascii_digit 102 (some written) called).0
    ≡ ok (some (active_row 1 102))
add_member-link_pending_invites_example =
    add_member-link_pending_invites ascii_digit ascii_digit 12 1 olga typed registry called 102
      written refl unknown_number added_12 same_number no_membership

add_member_again_example :
    add_member ascii_digit ascii_digit 13 1 olga written called ≡ err conflict
add_member_again_example =
    add_member_again ascii_digit ascii_digit 12 13 1 olga typed written registry called refl
      added_12 same_number
