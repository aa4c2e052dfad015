-- ===== src/Organizations/OwnerRows.antt =====
-- What an INSERT, a DELETE and an UPDATE of a member do to the owners of an organization.
use mathlib.Core.Path.{subst}
use balt_oil.Organizations.Members.{demote, in_org, link}
use balt_oil.Organizations.Create.{owner_row, with_owner}
use balt_oil.Table.Changes.{count_rows-map_rows, count_rows-remove, map_rows-Unique, remove-Unique}
use balt_oil.Organizations.Defs.{
  OrganizationMember, Registry, active_owner, is_live, is_owner, owner,
}
use balt_oil.Table.{
  Table, Unique, any_row, count_rows, count_rows-map_rows_zero, count_rows-put, count_rows-put_new,
  lookup, lookup-map_rows, map_rows, put, put-Unique, remove,
}
use balt_oil.Text.{Text}
use balt_oil.Prelude.{
  Bool, Bool-cases, Option, [], ap, arith, false, if◌then◌else◌, inl, inr, leb, none, not, refl,
  some, true, ℕ, ◌&&◌, ◌==◌, ◌∙◌, ◌∷◌, ◌≡◌, ◌≤◌,
}

-- A row of an owner that is no active member.
abbrev pub stray : ℕ → OrganizationMember → Bool
stray k row = row.organization_id == k && is_owner row.member_role && not (is_live row.status)

abbrev pub OneOwnerIn : ℕ → Table OrganizationMember → Type 0
OneOwnerIn k t = Unique t × (count_rows (stray k) t ≡ 0) × (count_rows (active_owner k) t ≤ 1)

abbrev pub OneOwner : ℕ → Registry → Type 0
OneOwner k s = OneOwnerIn k s.members

abbrev pub KeptIn : ℕ → (t t' : Table OrganizationMember) → Type 0
KeptIn k t t' = OneOwnerIn k t' × (count_rows (active_owner k) t ≤ count_rows (active_owner k) t')

-- The organization has at most one owner still, and one if it had one.
abbrev pub Kept : ℕ → Registry → Registry → Type 0
Kept k s s' = KeptIn k s.members s'.members

fresh_count :
    (p : OrganizationMember → Bool) (k : ℕ) (t : Table OrganizationMember)
    → ((row : OrganizationMember) → p row ≡ true → (row.organization_id == k) ≡ true)
    → any_row (λ j row. row.organization_id == k) t ≡ false
    → count_rows p t ≡ 0
fresh_count p k [] at h = refl
fresh_count p k ((j, row) ∷ t) at h = ground (arith, at row, fresh_count p k t at)

in_org-eq :
    (k : ℕ) (found : Option OrganizationMember) (row : OrganizationMember)
    → in_org k found ≡ some row
    → (found ≡ some row) × (row.organization_id ≡ k)
in_org-eq k none row h = cc
in_org-eq k (some row') row h = ground arith

module _ (k : ℕ) (t : Table OrganizationMember) (one : OneOwnerIn k t) where
  pub same-KeptIn : KeptIn k t t
  same-KeptIn = (one, omega arith)

  pub put_new-KeptIn :
      (id : ℕ) (row : OrganizationMember)
      → lookup id t ≡ none
      → (is_owner row.member_role ≡ true
          → (is_live row.status ≡ true)
            × (row.organization_id ≡ k → count_rows (active_owner k) t ≡ 0))
      → KeptIn k t (put id row t)
  put_new-KeptIn id row new alone =
      let (unique, no_stray, le) = one in
      let strays = count_rows-put_new (stray k) id row t new in
      let actives = count_rows-put_new (active_owner k) id row t new in
      ((put-Unique id row t unique, ground (arith, alone), ground (arith, alone)), omega arith)

  pub with_owner-KeptIn :
      (id member_id : ℕ) (first : Option ℕ)
      → lookup member_id t ≡ none
      → any_row (λ j row. row.organization_id == id) t ≡ false
      → KeptIn k t (with_owner member_id id first t)
  with_owner-KeptIn id member_id none new fresh = same-KeptIn
  with_owner-KeptIn id member_id (some user) new fresh =
      let empty : count_rows (active_owner id) t ≡ 0 =
        fresh_count (active_owner id) id t (λ row here. ground arith) fresh in
      put_new-KeptIn member_id (owner_row id user) new
        (λ owns. (refl, λ same. subst (λ d. count_rows (active_owner d) t ≡ 0) same empty))

  pub remove-KeptIn :
      (org_id member_id : ℕ) (row : OrganizationMember)
      → in_org org_id (lookup member_id t) ≡ some row
      → (is_owner row.member_role && leb (count_rows (active_owner org_id) t) 1) ≡ false
      → KeptIn k t (remove member_id t)
  remove-KeptIn org_id member_id row found more =
      let (unique, no_stray, le) = one in
      let (held, here) = in_org-eq org_id (lookup member_id t) row found in
      let strays = count_rows-remove (stray k) member_id {old = row} t unique held in
      let actives = count_rows-remove (active_owner k) member_id {old = row} t unique held in
      let not_last : org_id ≡ k
          → (is_owner row.member_role && leb (count_rows (active_owner k) t) 1) ≡ false =
        λ same.
          subst (λ d. (is_owner row.member_role && leb (count_rows (active_owner d) t) 1) ≡ false)
            same more in
      let other : active_owner k row ≡ false = ground (arith, not_last) in
      ((remove-Unique member_id t unique, ground arith, ground arith), ground arith)

  demoted :
      (org_id : ℕ)
      → count_rows (active_owner k) (map_rows (demote org_id) t)
        ≡ (if org_id == k then 0 else count_rows (active_owner k) t)
  demoted org_id = elim (Bool-cases (org_id == k)) [
    | inl this ↦
        let same : org_id ≡ k = ground arith in
        rw (this, same)
          (count_rows-map_rows_zero (active_owner k) (demote k) t (λ j b. ground arith))
    | inr other ↦ rw other (
        count_rows-map_rows (active_owner k) (stray k) (demote org_id) t (λ j b plain. ground arith)
          one.1)
  ]

  pub promote-KeptIn :
      (org_id member_id : ℕ) (row : OrganizationMember)
      → in_org org_id (lookup member_id t) ≡ some row
      → is_live row.status ≡ true
      → is_owner row.member_role ≡ false
      → KeptIn k t (put member_id (record row { member_role = owner }) (map_rows (demote org_id) t))
  promote-KeptIn org_id member_id row found live plain =
      let (unique, no_stray, le) = one in
      let (held, here) = in_org-eq org_id (lookup member_id t) row found in
      let others = map_rows (demote org_id) t in
      let promoted : OrganizationMember = record row { member_role = owner } in
      let same_row : demote org_id member_id row ≡ row = rw plain (ground arith) in
      let mapped : lookup member_id others ≡ some row =
        lookup-map_rows (demote org_id) member_id {a = row} t held ∙ ap some same_row in
      let strays = count_rows-put (stray k) member_id promoted {old = row} others mapped in
      let actives = count_rows-put (active_owner k) member_id promoted {old = row} others mapped in
      let strays' =
        count_rows-map_rows (stray k) (stray k) (demote org_id) t (λ j b h. ground arith)
          no_stray in
      let actives' = demoted org_id in
      (
        (
          put-Unique member_id promoted others (map_rows-Unique (demote org_id) t unique),
          ground arith,
          ground arith,
        ),
        ground arith,
      )

  pub linked-KeptIn : (user : ℕ) (norm : Text) → KeptIn k t (map_rows (link user norm) t)
  linked-KeptIn user norm =
      let (unique, no_stray, le) = one in
      let strays =
        count_rows-map_rows (stray k) (stray k) (link user norm) t (λ j b h. ground arith)
          no_stray in
      let actives =
        count_rows-map_rows (active_owner k) (stray k) (link user norm) t (λ j b h. ground arith)
          no_stray in
      ((map_rows-Unique (link user norm) t unique, omega arith, omega arith), omega arith)
