-- ===== src/Organizations/Owner.antt =====
-- The owner of an organization, over all requests in any order.
use balt_oil.Organizations.OwnerOps.{
  add_member-Kept, archive_organization-Kept, create_organization-Kept, link_pending_invites-Kept,
  remove_member-Kept, set_owner-Kept, update_commercial-Kept, update_organization-Kept,
}
use balt_oil.Organizations.OwnerRows.{Kept, OneOwner, same-KeptIn}
use balt_oil.Organizations.Members.{add_member, link_pending_invites, remove_member, set_owner}
use balt_oil.Organizations.Edit.{
  UpdateOrganizationCommercialRequest, UpdateOrganizationRequest, archive_organization,
  update_commercial, update_organization,
}
use balt_oil.Organizations.Create.{Bank, CreateOrganizationRequest, Party, create_organization}
use balt_oil.Organizations.Defs.{Account, Registry, owners}
use balt_oil.Service.{Post_ok, TokenUser, ok}
use balt_oil.Table.{Table, any_row, lookup}
use balt_oil.Text.{Text}
use balt_oil.Prelude.{Bool, Option, arith, false, none, ℕ, ◌==◌, ◌≡◌, ◌≤◌}

-- One request that ends well, or what the rest of auth_service does to its users. A new organization
-- and a new member have identifiers that no row has.
pub data OrgStep (s s' : Registry) : Type 0 where
  created :
      (now id member_id : ℕ) (party : Option Party) (bank : Option Bank) (actor : TokenUser)
      (data' : CreateOrganizationRequest)
      → lookup member_id s.members ≡ none
      → any_row (λ j row. row.organization_id == id) s.members ≡ false
      → create_organization now id member_id party bank actor data' s ≡ ok s'
      → OrgStep s s'
  edited :
      (k : ℕ) (actor : TokenUser) (u : UpdateOrganizationRequest)
      → update_organization k actor u s ≡ ok s'
      → OrgStep s s'
  priced :
      (k : ℕ) (actor : TokenUser) (u : UpdateOrganizationCommercialRequest)
      → update_commercial k actor u s ≡ ok s'
      → OrgStep s s'
  archived :
      (now k : ℕ) (actor : TokenUser) → archive_organization now k actor s ≡ ok s' → OrgStep s s'
  member_added :
      (python_digit sql_digit : ℕ → Bool) (id org_id : ℕ) (actor : TokenUser) (phone : Text)
      → lookup id s.members ≡ none
      → add_member python_digit sql_digit id org_id actor phone s ≡ ok s'
      → OrgStep s s'
  member_removed :
      (org_id member_id : ℕ) (actor : TokenUser)
      → remove_member org_id member_id actor s ≡ ok s'
      → OrgStep s s'
  owner_set :
      (org_id member_id : ℕ) (actor : TokenUser)
      → set_owner org_id member_id actor s ≡ ok s'
      → OrgStep s s'
  registered :
      (python_digit : ℕ → Bool) (user : ℕ) (phone : Option Text)
      → s' ≡ (link_pending_invites python_digit user phone s).0
      → OrgStep s s'
  users_changed : (users : Table Account) → s' ≡ record s { users = users } → OrgStep s s'

pub data OrgReach (s : Registry) : Registry → Type 0 where
  start : OrgReach s s
  then_ : {t t' : Registry} → OrgReach s t → OrgStep t t' → OrgReach s t'

module _ (k : ℕ) (s : Registry) (one : OneOwner k s) where
  step-Kept : (s' : Registry) → OrgStep s s' → Kept k s s'
  step-Kept s' (created now id member_id party bank actor data' new fresh e) =
      Post_ok (create_organization-Kept k s one now id member_id party bank actor data' new fresh) e
  step-Kept s' (edited id actor u e) = Post_ok (update_organization-Kept k s one id actor u) e
  step-Kept s' (priced id actor u e) = Post_ok (update_commercial-Kept k s one id actor u) e
  step-Kept s' (archived now id actor e) =
      Post_ok (archive_organization-Kept k s one now id actor) e
  step-Kept s' (member_added python_digit sql_digit id org_id actor phone new e) =
      Post_ok (add_member-Kept k s one python_digit sql_digit id org_id actor phone new) e
  step-Kept s' (member_removed org_id member_id actor e) =
      Post_ok (remove_member-Kept k s one org_id member_id actor) e
  step-Kept s' (owner_set org_id member_id actor e) =
      Post_ok (set_owner-Kept k s one org_id member_id actor) e
  step-Kept s' (registered python_digit user phone e) =
      rw e (link_pending_invites-Kept k s one python_digit user phone)
  step-Kept s' (users_changed users e) = rw e (same-KeptIn k s.members one)

-- Whatever is asked in whatever order, an organization never gets a second owner, and one that has
-- an owner has exactly one from then on: if it had at most one, all rows of owners in it were those
-- of active members, and no two memberships shared their identifier.
pub OrgReach-OneOwner :
    (k : ℕ) {s s' : Registry}
    → OneOwner k s
    → OrgReach s s'
    → OneOwner k s' × (owners k s ≤ owners k s')
OrgReach-OneOwner k one start = (one, omega arith)
OrgReach-OneOwner k {s = s} one (then_ {t} {t'} r step) =
    let (before, more) = OrgReach-OneOwner k {s = s} one r in
    let (after, more') = step-Kept k t before t' step in (after, omega arith)
