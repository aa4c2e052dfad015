-- ===== src/Organizations/Again.antt =====
-- The same member is not added twice.
use mathlib.Core.Path.{subst}
use balt_oil.Organizations.Invites.{
  =text-refl, none_found, rows_where-put_new, scalar_one_or_none-none, add_member-adds,
}
use balt_oil.Organizations.Members.{
  active_row, invite_row, is_invite, new_member, add_member, is_reachable,
}
use balt_oil.Organizations.Phone.{normalize_phone}
use balt_oil.Organizations.Defs.{
  Account, Organization, OrganizationMember, Registry, get_membership, is_membership,
  require_org_admin, rows_where, owns,
}
use balt_oil.Service.{
  >>=_Post, Post, TokenUser, conflict, ends, err, ok, raise_if-Post, scalar_one_or_none, Post_ok,
  is_staff, Result, forbidden, not_found, ok_injective, or_raise, raise_if, ◌>>=◌, ◌>>◌,
}
use balt_oil.Table.{lookup, put, find_row}
use balt_oil.Text.{Text}
use balt_oil.Prelude.{
  Bool, List, Option, [], ap, arith, is_some, none, refl, some, true, ℕ, ◌++◌, ◌∙◌, ◌∷◌, ◌≡◌,
  Bool-cases, inl, inr, false, if◌then◌else◌, not,
}

append_nil {ℓ} : {A : Type ℓ} (xs : List A) → xs ++ [] ≡ xs
append_nil [] = refl
append_nil (x ∷ xs) = ap (λ ys. x ∷ ys) (append_nil xs)

-- `require_org_admin` by the memberships of the user.
abbrev admin_by : Option Organization → Bool → List OrganizationMember → Result Organization
admin_by found staff rows = do
  org ← or_raise found not_found
  if staff
      then ok org
      else do m ← scalar_one_or_none rows; raise_if (not (owns m)) forbidden; ok org

admin_by_role :
    (found : Option Organization) (staff : Bool) (org : Organization)
    → admin_by found staff [] ≡ ok org
    → (found ≡ some org) × (staff ≡ true)
admin_by_role none staff org e = cc
admin_by_role (some o) true org e = (ap some (ok_injective e), refl)
admin_by_role (some o) false org e = cc

abbrev with_row : ℕ → OrganizationMember → Registry → Registry
with_row id row s = record s { members = put id row s.members }

module _ (org_id id : ℕ) (norm : Text) (s : Registry) (new : lookup id s.members ≡ none) where
  found_again :
      (p : OrganizationMember → Bool) (row : OrganizationMember)
      → rows_where p s.members ≡ []
      → p row ≡ true
      → scalar_one_or_none (rows_where p (put id row s.members)) ≡ ok (some row)
  found_again p row empty met = rw (rows_where-put_new p id row s.members new, empty, met) refl

  new_member_again :
      (found : Option (ℕ × Account))
      → Post
          (λ row. new_member org_id norm (with_row id row s) found ≡ err conflict)
          (new_member org_id norm s found)
  unfolding new_member get_membership
  new_member_again (some (user, account)) =
      let rows = rows_where (is_membership org_id user) s.members in
      >>=_Post (scalar_one_or_none rows) λ held e. raise_if-Post (is_some held) conflict λ free.
        let empty = scalar_one_or_none-none rows (e ∙ ap ok (none_found held free)) in
        ends (active_row org_id user) (
          rw (found_again (is_membership org_id user) (active_row org_id user) empty (ground arith))
            refl)
  new_member_again none =
      let rows = rows_where (is_invite org_id norm) s.members in
      >>=_Post (scalar_one_or_none rows) λ dup e. raise_if-Post (is_some dup) conflict λ free.
        let empty = scalar_one_or_none-none rows (e ∙ ap ok (none_found dup free)) in
        ends (invite_row org_id norm) (
          rw
            (found_again (is_invite org_id norm) (invite_row org_id norm) empty
              (rw (=text-refl norm) (ground arith)))
            refl)

  abbrev Outsider : OrganizationMember → Type 0
  Outsider row =
      (a : ℕ)
      → is_membership org_id a row ≡ true
      → rows_where (is_membership org_id a) s.members ≡ []

  new_member-Outsider :
      (found : Option (ℕ × Account)) → Post Outsider (new_member org_id norm s found)
  unfolding new_member get_membership
  new_member-Outsider (some (user, account)) =
      let rows = rows_where (is_membership org_id user) s.members in
      >>=_Post (scalar_one_or_none rows) λ held e. raise_if-Post (is_some held) conflict λ free.
        let empty = scalar_one_or_none-none rows (e ∙ ap ok (none_found held free)) in
        ends (active_row org_id user) λ a inside.
          let same : user ≡ a = ground arith in
          subst (λ d. rows_where (is_membership org_id d) s.members ≡ []) same empty
  new_member-Outsider none =
      >>=_Post (scalar_one_or_none (rows_where (is_invite org_id norm) s.members)) λ dup e.
        raise_if-Post (is_some dup) conflict
          λ free. ends (invite_row org_id norm) λ a inside. ground arith

  admin_again :
      (actor : TokenUser) (row : OrganizationMember) (org : Organization)
      → (is_membership org_id actor.id row ≡ true
          → rows_where (is_membership org_id actor.id) s.members ≡ [])
      → require_org_admin org_id actor s ≡ ok org
      → require_org_admin org_id actor (with_row id row s) ≡ ok org
  unfolding require_org_admin get_membership
  admin_again actor row org outsider may =
      let p = is_membership org_id actor.id in
      let put_last = rows_where-put_new p id row s.members new in
      elim (Bool-cases (p row)) [
        | inl inside ↦
            let empty = outsider inside in
            let found = lookup org_id s.organizations in
            let alone : admin_by found (is_staff actor.role) [] ≡ ok org =
              subst (λ rows. admin_by found (is_staff actor.role) rows ≡ ok org) empty may in
            let (there, staff) = admin_by_role found (is_staff actor.role) org alone in
            rw (there, staff) refl
        | inr other ↦ rw (put_last, other, append_nil (rows_where p s.members)) may
      ]

-- Whoever adds a number to an organization cannot add it again, in any notation: the second attempt
-- is refused with a conflict, whether the first one found an account or left an invitation.
pub add_member_again :
    (python_digit sql_digit : ℕ → Bool) (id id' org_id : ℕ) (actor : TokenUser)
    (phone phone' : Text) (s s' : Registry)
    → lookup id s.members ≡ none
    → add_member python_digit sql_digit id org_id actor phone s ≡ ok s'
    → normalize_phone python_digit (some phone') ≡ normalize_phone python_digit (some phone)
    → add_member python_digit sql_digit id' org_id actor phone' s' ≡ err conflict
unfolding add_member
add_member_again python_digit sql_digit id id' org_id actor phone phone' s s' new e same =
    let norm = normalize_phone python_digit (some phone) in
    let found = find_row (is_reachable sql_digit norm) s.users in
    let (row, org, may, long, made, stored) =
      Post_ok (add_member-adds python_digit sql_digit id org_id actor phone s) e in
    let outsider = Post_ok (new_member-Outsider org_id id norm s new found) made in
    let refused = Post_ok (new_member_again org_id id norm s new found) made in
    let may' = admin_again org_id id norm s new actor row org (outsider actor.id) may in
    rw (stored, may', same, long, refused) refl
