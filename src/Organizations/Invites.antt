-- ===== src/Organizations/Invites.antt =====
-- The members who are called into an organization by a number.
use balt_oil.Organizations.Create.{no_text}
use balt_oil.Organizations.Members.{
  active_row, add_member, invite_row, is_invite, is_reachable, link, new_member,
  link_pending_invites,
}
use balt_oil.Organizations.Phone.{normalize_phone}
use balt_oil.Organizations.Defs.{
  Organization, OrganizationMember, Registry, is_membership, require_org_admin, rows_where,
  get_membership,
}
use balt_oil.Service.{
  >>=_Post, Post, TokenUser, conflict, ends, ok, raise_if-Post, scalar_one_or_none, Post_ok,
}
use balt_oil.Table.{Table, find_row, lookup, map_rows, put}
use balt_oil.Text.{Text, ◌=text◌}
use balt_oil.Prelude.{
  Bool, List, [], arith, false, if◌then◌else◌, length, ltb, none, refl, some, true, ℕ, ◌++◌, ◌∷◌,
  ◌≡◌, ◌==◌, Option, ap, is_some, ◌∙◌,
}

pub =text-refl : (t : Text) → (t =text t) ≡ true
=text-refl [] = refl
=text-refl (c ∷ t) = ground (arith, =text-refl t)

-- A new row is the last.
pub rows_where-put_new {ℓ} :
    {A : Type ℓ} (p : A → Bool) (id : ℕ) (a : A) (t : Table A)
    → lookup id t ≡ none
    → rows_where p (put id a t) ≡ rows_where p t ++ (if p a then a ∷ [] else [])
rows_where-put_new p id a [] new = ground arith
rows_where-put_new p id a ((j, b) ∷ t) new = ground (arith, rows_where-put_new p id a t)

pub scalar_one_or_none-none {ℓ} :
    {A : Type ℓ} (xs : List A) → scalar_one_or_none xs ≡ ok none → xs ≡ []
scalar_one_or_none-none [] e = refl
scalar_one_or_none-none (x ∷ []) e = cc
scalar_one_or_none-none (x ∷ y ∷ xs) e = cc

module _ (org_id user : ℕ) (norm : Text) where
  linked_rows :
      (id : ℕ) (t : Table OrganizationMember)
      → lookup id t ≡ none
      → rows_where (is_membership org_id user) t ≡ []
      → rows_where (is_invite org_id norm) t ≡ []
      → rows_where
          (is_membership org_id user)
          (map_rows (link user norm) (put id (invite_row org_id norm) t))
        ≡ active_row org_id user ∷ []
  linked_rows id [] new out no_invite =
      let becomes : link user norm id (invite_row org_id norm) ≡ active_row org_id user =
        rw (=text-refl norm) refl in
      rw becomes (ground arith)
  linked_rows id ((j, row) ∷ t) new out no_invite =
      let other : (j == id) ≡ false = ground arith in
      let outsider : is_membership org_id user row ≡ false = ground arith in
      let uninvited : is_invite org_id norm row ≡ false = ground arith in
      let still : is_membership org_id user (link user norm j row) ≡ false = ground arith in
      rw (other, still) (linked_rows id t (ground arith) (ground arith) (ground arith))

pub none_found {ℓ} : {A : Type ℓ} (found : Option A) → is_some found ≡ false → found ≡ none
none_found none h = refl
none_found (some a) h = cc

new_member_invites :
    (org_id : ℕ) (norm : Text) (s : Registry)
    → Post
        (λ row.
          (rows_where (is_invite org_id norm) s.members ≡ []) × (row ≡ invite_row org_id norm))
        (new_member org_id norm s none)
unfolding new_member
new_member_invites org_id norm s =
    let invites = rows_where (is_invite org_id norm) s.members in
    >>=_Post (scalar_one_or_none invites) λ dup e. raise_if-Post (is_some dup) conflict λ free.
      ends (invite_row org_id norm)
        (scalar_one_or_none-none invites (e ∙ ap ok (none_found dup free)), refl)

long_text :
    (python_digit : ℕ → Bool) (number : Text)
    → ltb (length (normalize_phone python_digit (some number))) 10 ≡ false
    → no_text (some number) ≡ false
unfolding normalize_phone
long_text python_digit [] h = cc
long_text python_digit (c ∷ t) h = refl

-- What `add_member` has seen when it ends well, and the row that it adds.
module _ (python_digit sql_digit : ℕ → Bool) (id org_id : ℕ) (actor : TokenUser) (phone : Text)
    (s : Registry) where
  pub add_member-adds :
      Post
        (λ s'.
          let norm = normalize_phone python_digit (some phone) in
          (row : OrganizationMember) × (org : Organization) × (require_org_admin org_id actor s
            ≡ ok org)
          × (ltb (length norm) 10 ≡ false)
          × (new_member org_id norm s (find_row (is_reachable sql_digit norm) s.users) ≡ ok row)
          × (s' ≡ record s { members = put id row s.members }))
        (add_member python_digit sql_digit id org_id actor phone s)
  unfolding add_member
  add_member-adds =
      let norm = normalize_phone python_digit (some phone) in
      >>=_Post (require_org_admin org_id actor s) λ org may.
        raise_if-Post (ltb (length norm) 10) conflict λ long.
          >>=_Post (new_member org_id norm s (find_row (is_reachable sql_digit norm) s.users))
            λ row made. ends _ (row, org, may, long, made, refl)

-- A user who registers with the number of an invitation is a member of the organization: after the
-- invitation of a number that no active account has, the registration of an account with this
-- number, in any notation, makes the account an active member, if it was none.
pub add_member-link_pending_invites :
    (python_digit sql_digit : ℕ → Bool) (id org_id : ℕ) (actor : TokenUser) (phone : Text)
    (s s' : Registry) (user : ℕ) (number : Text)
    → lookup id s.members ≡ none
    → find_row (is_reachable sql_digit (normalize_phone python_digit (some phone))) s.users ≡ none
    → add_member python_digit sql_digit id org_id actor phone s ≡ ok s'
    → normalize_phone python_digit (some number) ≡ normalize_phone python_digit (some phone)
    → get_membership org_id user s ≡ ok none
    → get_membership org_id user (link_pending_invites python_digit user (some number) s').0
      ≡ ok (some (active_row org_id user))
unfolding get_membership link_pending_invites
add_member-link_pending_invites python_digit sql_digit id org_id actor phone s s' user number new
      nobody e same outside =
    let norm = normalize_phone python_digit (some phone) in
    let (row, org, may, long, made, stored) =
      Post_ok (add_member-adds python_digit sql_digit id org_id actor phone s) e in
    let made' : new_member org_id norm s none ≡ ok row = rw (← nobody) made in
    let (no_invite, invite) = Post_ok (new_member_invites org_id norm s) made' in
    let enough : ltb (length (normalize_phone python_digit (some number))) 10 ≡ false =
      rw same long in
    let out = scalar_one_or_none-none (rows_where (is_membership org_id user) s.members) outside in
    let linked = linked_rows org_id user norm id s.members new out no_invite in
    rw (long_text python_digit number enough, enough, same, stored, invite, linked) refl
