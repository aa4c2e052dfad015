-- ===== src/Service.antt =====
-- What the services share: the roles of a token (app/core/dependencies.py of each service), the
-- HTTP errors (app/core/exceptions.py) and the result of a handler. A handler that raises leaves no
-- trace in the database, since `get_db` (app/database.py) rolls the session back: it returns `err`,
-- and `ok` carries the new state. Where a handler commits before it raises, its model says so.
use mathlib.Core.Path.{subst}
use balt_oil.Prelude.{
  ℕ, ◌≡◌, refl, ◌⊎◌, inl, inr, Bool, true, false, ◌||◌, Option, none, some, if◌then◌else◌, List, [],
  ◌∷◌,
}

-- `role` is free text in the token; `another_role` is any text that no code compares with.
pub data Role : Type 0 where
  admin manager driver client another_role : Role

pub record TokenUser : Type 0 where
  pub id : ℕ
  pub role : Role

abbrev pub is_admin : Role → Bool
is_admin Role.admin = true
is_admin _ = false

abbrev pub is_driver : Role → Bool
is_driver Role.driver = true
is_driver _ = false

abbrev pub is_client : Role → Bool
is_client Role.client = true
is_client _ = false

-- `role in (ROLE_MANAGER, ROLE_ADMIN)`
abbrev pub is_staff : Role → Bool
is_staff Role.admin = true
is_staff Role.manager = true
is_staff _ = false

-- `role in (ROLE_DRIVER, ROLE_MANAGER, ROLE_ADMIN)`
abbrev pub is_worker : Role → Bool
is_worker r = is_staff r || is_driver r

-- `internal_error` is an exception that nobody turns into an answer (status 500).
pub data HttpError : Type 0 where
  auth_error forbidden not_found conflict validation bad_request unavailable internal_error :
      HttpError

-- The answer of a handler: its new state and what it returns, or the error that it raises.
pub data Result {ℓ} (Answer : Type ℓ) : Type ℓ where
  err : HttpError → Result Answer
  ok : Answer → Result Answer

-- `if c: raise e`
abbrev pub raise_if : Bool → HttpError → Result (Unit {0})
raise_if false e = ok tt
raise_if true e = err e

-- `if x is None: raise e`
abbrev pub or_raise {ℓ} : {A : Type ℓ} → Option A → HttpError → Result A
or_raise (some found) e = ok found
or_raise none e = err e

-- The statements of a handler: what follows runs on the answer of what stands before.
infixl 5 ◌>>=◌
abbrev pub ◌>>=◌ {ℓ κ} : {S : Type ℓ} {T : Type κ} → Result S → (S → Result T) → Result T
err failure >>= following = err failure
ok done >>= following = following done

-- A statement whose answer is not used, as a check is one.
infixl 5 ◌>>◌
abbrev pub ◌>>◌ {ℓ} : {T : Type ℓ} → Result (Unit {0}) → Result T → Result T
check >> following = check >>= λ nothing. following

-- `scalar_one_or_none`: more than one row is an exception.
abbrev pub scalar_one_or_none {ℓ} : {A : Type ℓ} → List A → Result (Option A)
scalar_one_or_none [] = ok none
scalar_one_or_none (x ∷ []) = ok (some x)
scalar_one_or_none (x ∷ y ∷ rest) = err internal_error

pub ok_injective {ℓ} : {T : Type ℓ} {a c : T} → ok a ≡ ok c → a ≡ c
ok_injective h = cc

-- To split on a computed result and keep the equation.
pub Result-cases {ℓ} :
    {A : Type ℓ} (m : Result A) → ((a : A) × (m ≡ ok a)) ⊎ ((e : HttpError) × (m ≡ err e))
Result-cases (err failure) = inr (failure, refl)
Result-cases (ok done) = inl (done, refl)

-- What holds of the answer of a handler that ends well, shown statement by statement.
pub data Post {ℓ κ} {T : Type ℓ} (P : T → Type κ) : Result T → Type (ℓ ⊔ κ) where
  fails : (e : HttpError) → Post P (err e)
  ends : (answer : T) → P answer → Post P (ok answer)

module _ {ℓ κ} {T : Type ℓ} {P : T → Type κ} where
  pub >>=_Post {ℓ'} :
      {S : Type ℓ'} (m : Result S) {f : S → Result T}
      → ((a : S) → m ≡ ok a → Post P (f a))
      → Post P (m >>= f)
  >>=_Post (err failure) h = fails failure
  >>=_Post (ok done) h = h done refl

  pub raise_if-Post :
      (refused : Bool) (e : HttpError) {rest : Result T}
      → (refused ≡ false → Post P rest)
      → Post P (raise_if refused e >> rest)
  raise_if-Post false e h = h refl
  raise_if-Post true e h = fails e

  pub or_raise-Post {ℓ'} :
      {S : Type ℓ'} (found : Option S) (e : HttpError) {f : S → Result T}
      → ((a : S) → found ≡ some a → Post P (f a))
      → Post P (or_raise found e >>= f)
  or_raise-Post none e h = fails e
  or_raise-Post (some a) e h = h a refl

  pub if_Post :
      (test : Bool) {m n : Result T} → Post P m → Post P n → Post P (if test then m else n)
  if_Post true hm hn = hm
  if_Post false hm hn = hn

  pub Post-weaken {κ'} :
      {Q : T → Type κ'} {m : Result T} → ((c : T) → P c → Q c) → Post P m → Post Q m
  Post-weaken h (fails e) = fails e
  Post-weaken h (ends answer p) = ends answer (h answer p)

  pub Post_ok : {m : Result T} {c : T} → Post P m → m ≡ ok c → P c
  Post_ok (fails e) h = cc
  Post_ok (ends answer p) h = subst P (ok_injective h) p
