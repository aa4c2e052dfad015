-- ===== src/Prices/Defaults.antt =====
-- app/services/tariff_service.py: the default tariff of a type of clients (`set_default_tariff`) and
-- the archive (`archive_tariff`).
use mathlib.Core.Path.{subst}
use balt_oil.Prices.Tariffs.{
  ClientType, Tariff, is_live_default, rows_where, same_type, get_default_tariff,
}
use balt_oil.Table.{Table, Unique, lookup, map_rows, put}
use balt_oil.Service.{
  Result, TokenUser, forbidden, is_staff, not_found, ok, or_raise, raise_if, validation, ◌>>=◌,
  ◌>>◌, Post, Post_ok, ends, or_raise-Post, raise_if-Post,
}
use balt_oil.Prelude.{
  sym, Bool, Option, [], arith, false, if◌then◌else◌, none, not, refl, some, true, ℕ, ◌&&◌, ◌==◌,
  ◌∷◌, ◌≡◌, ◌≢◌,
}

-- `Tariff.client_type == …`, where None meets NULL.
abbrev pub same_column : Option ClientType → Option ClientType → Bool
same_column none none = true
same_column none (some kind) = false
same_column (some kind) column = same_type kind column

-- The other defaults of the same type lose their mark, the archived ones too.
abbrev pub cleared : ℕ → Option ClientType → ℕ → Tariff → Tariff
cleared k kind j t =
    if t.is_default && same_column kind t.client_type && not (j == k)
    then record t { is_default = false }
    else t

unfoldable pub set_default_tariff : ℕ → TokenUser → Table Tariff → Result (Table Tariff × Tariff)
set_default_tariff k actor tariffs = do
  raise_if (not (is_staff actor.role)) forbidden
  t ← or_raise (lookup k tariffs) not_found
  raise_if t.is_archived validation
  let t' = record t { is_default = true }
  ok (put k t' (map_rows (cleared k t.client_type) tariffs), t')

unfoldable pub archive_tariff : ℕ → TokenUser → Table Tariff → Result (Table Tariff × Tariff)
archive_tariff k actor tariffs = do
  raise_if (not (is_staff actor.role)) forbidden
  t ← or_raise (lookup k tariffs) not_found
  raise_if t.is_default validation
  raise_if t.is_archived validation
  let t' = record t { is_archived = true }
  ok (put k t' tariffs, t')

-- The rows that `get_default_tariff` looks for first.
abbrev is_default_of : ClientType → Tariff → Bool
is_default_of kind t = is_live_default t && same_type kind t.client_type

module _ (k : ℕ) (kind : ClientType) where
  is_default_of-cleared :
      (j : ℕ) (t : Tariff) → j ≢ k → is_default_of kind (cleared k (some kind) j t) ≡ false
  is_default_of-cleared j t other = ground arith

  rows_where-cleared :
      (ts : Table Tariff)
      → lookup k ts ≡ none
      → rows_where (is_default_of kind) (map_rows (cleared k (some kind)) ts) ≡ []
  rows_where-cleared [] h = refl
  rows_where-cleared ((j, b) ∷ ts) h =
      ground (arith, is_default_of-cleared j b, rows_where-cleared ts)

  rows_where-put :
      (t t' : Tariff) (ts : Table Tariff)
      → Unique ts
      → lookup k ts ≡ some t
      → is_default_of kind t' ≡ true
      → rows_where (is_default_of kind) (put k t' (map_rows (cleared k (some kind)) ts)) ≡ (t' ∷ [])
  rows_where-put t t' [] u h d = cc
  rows_where-put t t' ((j, b) ∷ ts) u h d =
      ground (arith, is_default_of-cleared j b, rows_where-cleared ts, rows_where-put t t' ts u.1)

  get_default_tariff-put :
      (t : Tariff) (ts : Table Tariff)
      → Unique ts
      → lookup k ts ≡ some t
      → t.is_archived ≡ false
      → t.client_type ≡ some kind
      → let t' = record t { is_default = true } in
        get_default_tariff (some kind) (put k t' (map_rows (cleared k (some kind)) ts))
        ≡ ok (some t')
  unfolding get_default_tariff
  get_default_tariff-put t ts u found live typed =
      let t' = record t { is_default = true } in
      let passes : is_default_of kind t' ≡ true = ground arith in
      let rows = rows_where-put t t' ts u found passes in rw rows refl

set_default_tariff-Post :
    (k : ℕ) (kind : ClientType) (actor : TokenUser) (ts : Table Tariff)
    → Unique ts
    → Post
        (λ done.
          done.1.client_type ≡ some kind → get_default_tariff (some kind) done.0 ≡ ok (some done.1))
        (set_default_tariff k actor ts)
unfolding set_default_tariff
set_default_tariff-Post k kind actor ts u = raise_if-Post (not (is_staff actor.role)) forbidden λ _.
    or_raise-Post (lookup k ts) not_found λ t found. raise_if-Post t.is_archived validation λ live.
      let t' = record t { is_default = true } in
      ends _ (λ typed.
        subst
          (λ c.
            get_default_tariff (some kind) (put k t' (map_rows (cleared k c) ts)) ≡ ok (some t'))
          (sym typed) (get_default_tariff-put k kind t ts u found live typed))

-- Once a tariff is set as the default of its type of clients, the search for the default of that
-- type finds this one and does not meet a second, whatever defaults there were before; the tariffs
-- have distinct identifiers.
pub set_default_tariff-answers :
    (k : ℕ) (kind : ClientType) (actor : TokenUser) (ts ts' : Table Tariff) (t : Tariff)
    → Unique ts
    → set_default_tariff k actor ts ≡ ok (ts', t)
    → t.client_type ≡ some kind
    → get_default_tariff (some kind) ts' ≡ ok (some t)
set_default_tariff-answers k kind actor ts ts' t u h =
    Post_ok (set_default_tariff-Post k kind actor ts u) h
