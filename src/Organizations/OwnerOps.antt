-- ===== src/Organizations/OwnerOps.antt =====
-- Each operation of Organizations.Create, Organizations.Edit and Organizations.Members keeps the
-- owner of an organization.
use balt_oil.Organizations.OwnerRows.{
  Kept, OneOwner, linked-KeptIn, promote-KeptIn, put_new-KeptIn, remove-KeptIn, same-KeptIn,
  with_owner-KeptIn,
}
use balt_oil.Organizations.Members.{
  active_row, add_member, invite_row, is_invite, is_reachable, link_pending_invites, member_of,
  new_member, remove_member, set_owner,
}
use balt_oil.Organizations.Edit.{
  UpdateOrganizationCommercialRequest, UpdateOrganizationRequest, archive_organization, not_null,
  update_commercial, update_organization,
}
use balt_oil.Organizations.Create.{
  Bank, CreateOrganizationRequest, Party, create_organization, first_owner, no_party, no_text, pick,
}
use balt_oil.Organizations.Phone.{normalize_phone}
use balt_oil.Organizations.Defs.{
  Account, Registry, get_membership, get_org_or_404, is_live, is_owner, owners, require_org_admin,
  rows_where,
}
use balt_oil.Service.{
  >>=_Post, Post, Post_ok, TokenUser, conflict, ends, forbidden, is_admin, is_staff, not_found,
  or_raise-Post, raise_if-Post, scalar_one_or_none,
}
use balt_oil.Table.{any_row, find_row, lookup}
use balt_oil.Text.{Text}
use balt_oil.Prelude.{
  Bool, Bool-cases, Option, arith, false, inl, inr, is_some, leb, length, ltb, none, not,
  or_default, refl, some, ℕ, ◌&&◌, ◌==◌, ◌||◌, ◌≡◌,
}

new_member_plain :
    (org_id : ℕ) (norm : Text) (s : Registry) (found : Option (ℕ × Account))
    → Post (λ row. is_owner row.member_role ≡ false) (new_member org_id norm s found)
unfolding new_member
new_member_plain org_id norm s (some (user, account)) =
    >>=_Post (get_membership org_id user s)
      λ held e. raise_if-Post (is_some held) conflict λ free. ends (active_row org_id user) refl
new_member_plain org_id norm s none =
    >>=_Post (scalar_one_or_none (rows_where (is_invite org_id norm) s.members))
      λ dup e. raise_if-Post (is_some dup) conflict λ free. ends (invite_row org_id norm) refl

module _ (k : ℕ) (s : Registry) (one : OneOwner k s) where
  pub create_organization-Kept :
      (now id member_id : ℕ) (party : Option Party) (bank : Option Bank) (actor : TokenUser)
      (data' : CreateOrganizationRequest)
      → lookup member_id s.members ≡ none
      → any_row (λ j row. row.organization_id == id) s.members ≡ false
      → Post (Kept k s) (create_organization now id member_id party bank actor data' s)
  unfolding create_organization
  create_organization-Kept now id member_id party bank actor data' new fresh =
      raise_if-Post (no_text (pick data'.company_name (or_default party no_party).company_name))
        conflict
        λ named.
          >>=_Post (first_owner actor data'.owner_client_id s)
            λ first chosen. ends _ (with_owner-KeptIn k s.members one id member_id first new fresh)

  pub add_member-Kept :
      (python_digit sql_digit : ℕ → Bool) (id org_id : ℕ) (actor : TokenUser) (phone : Text)
      → lookup id s.members ≡ none
      → Post (Kept k s) (add_member python_digit sql_digit id org_id actor phone s)
  unfolding add_member
  add_member-Kept python_digit sql_digit id org_id actor phone new =
      let norm = normalize_phone python_digit (some phone) in
      let found = find_row (is_reachable sql_digit norm) s.users in
      >>=_Post (require_org_admin org_id actor s) λ org may.
        raise_if-Post (ltb (length norm) 10) conflict λ long.
          >>=_Post (new_member org_id norm s found) λ row made.
            let plain = Post_ok (new_member_plain org_id norm s found) made in
            ends _ (put_new-KeptIn k s.members one id row new (λ owns. cc))

  pub remove_member-Kept :
      (org_id member_id : ℕ) (actor : TokenUser)
      → Post (Kept k s) (remove_member org_id member_id actor s)
  unfolding remove_member
  remove_member-Kept org_id member_id actor = >>=_Post (require_org_admin org_id actor s) λ org may.
      or_raise-Post (member_of org_id member_id s) not_found λ row found.
        raise_if-Post (is_owner row.member_role && leb (owners org_id s) 1) conflict
          λ more. ends _ (remove-KeptIn k s.members one org_id member_id row found more)

  pub set_owner-Kept :
      (org_id member_id : ℕ) (actor : TokenUser)
      → Post (Kept k s) (set_owner org_id member_id actor s)
  unfolding set_owner
  set_owner-Kept org_id member_id actor =
      raise_if-Post (not (is_staff actor.role)) forbidden λ staff.
        >>=_Post (get_org_or_404 org_id s) λ org there.
          or_raise-Post (member_of org_id member_id s) not_found λ row found.
            raise_if-Post (not (is_live row.status) || not (is_some row.user_id)) conflict λ fit.
              elim (Bool-cases (is_owner row.member_role)) [
                | inl already ↦ rw already (ends s (same-KeptIn k s.members one))
                | inr plain ↦ rw plain (
                    ends _ (
                      promote-KeptIn k s.members one org_id member_id row found (ground arith)
                        plain))
              ]

  pub link_pending_invites-Kept :
      (python_digit : ℕ → Bool) (user : ℕ) (phone : Option Text)
      → Kept k s (link_pending_invites python_digit user phone s).0
  unfolding link_pending_invites
  link_pending_invites-Kept python_digit user phone =
      let norm = normalize_phone python_digit phone in
      elim (Bool-cases (no_text phone || ltb (length norm) 10)) [
        | inl skipped ↦ rw skipped (same-KeptIn k s.members one)
        | inr linked ↦ rw linked (linked-KeptIn k s.members one user norm)
      ]

  pub update_organization-Kept :
      (id : ℕ) (actor : TokenUser) (u : UpdateOrganizationRequest)
      → Post (Kept k s) (update_organization id actor u s)
  unfolding update_organization
  update_organization-Kept id actor u = >>=_Post (require_org_admin id actor s) λ org may.
      >>=_Post (not_null u.company_name org.company_name)
        λ name given. ends _ (same-KeptIn k s.members one)

  pub update_commercial-Kept :
      (id : ℕ) (actor : TokenUser) (u : UpdateOrganizationCommercialRequest)
      → Post (Kept k s) (update_commercial id actor u s)
  unfolding update_commercial
  update_commercial-Kept id actor u = raise_if-Post (not (is_admin actor.role)) forbidden λ may.
      >>=_Post (get_org_or_404 id s) λ org there.
        >>=_Post (not_null u.credit_allowed org.credit_allowed) λ allowed e.
          >>=_Post (not_null u.fuel_coefficient org.fuel_coefficient) λ fuel e'.
            >>=_Post (not_null u.delivery_coefficient org.delivery_coefficient)
              λ delivery e''. ends _ (same-KeptIn k s.members one)

  pub archive_organization-Kept :
      (now id : ℕ) (actor : TokenUser) → Post (Kept k s) (archive_organization now id actor s)
  unfolding archive_organization
  archive_organization-Kept now id actor =
      >>=_Post (require_org_admin id actor s) λ org may. ends _ (same-KeptIn k s.members one)
