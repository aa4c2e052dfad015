-- ===== src/Orders/Progress.antt =====
-- The life of an order as a graph of its statuses, and what one request may do to it.
use mathlib.Core.Path.{subst}
use balt_oil.Orders.Lifecycle.{allowed_roles, validate_transition}
use balt_oil.Payments.Defs.{
  Order, OrderStatus, accepted, awaiting_manager, delivered, is_finished, new,
}
use balt_oil.Table.{lookup, lookup-put, put, lookup-remove_ne, lookup-remove_self, remove, Table}
use balt_oil.Service.{Role, ok}
use balt_oil.Prelude.{
  Bool, Bool-cases, arith, false, inl, inr, none, not, refl, some, sym, true, ℕ, ◌==◌, ◌≡◌, ◌⊎◌,
  ◌∙◌, ◌≢◌,
}

-- From a status to the next one: an order is approved, taken, delivered, or given up before that.
abbrev pub is_edge : OrderStatus → OrderStatus → Bool
is_edge awaiting_manager new = true
is_edge new accepted = true
is_edge accepted delivered = true
is_edge from_status OrderStatus.cancelled = not (is_finished from_status)
is_edge _ _ = false

pub data StatusPath (s : OrderStatus) : OrderStatus → Type 0 where
  stay : StatusPath s s
  go : {t u : OrderStatus} → StatusPath s t → is_edge t u ≡ true → StatusPath s u

abbrev pub Near : OrderStatus → OrderStatus → Type 0
Near s t = (t ≡ s) ⊎ (is_edge s t ≡ true)

pub StatusPath-Near : (s t u : OrderStatus) → StatusPath s t → Near t u → StatusPath s u
StatusPath-Near s t u p (inl same) = subst (λ v. StatusPath s v) (sym same) p
StatusPath-Near s t u p (inr edge) = go p edge

pub validate_transition-edge :
    (s t : OrderStatus) (role : Role) → validate_transition s t role ≡ ok tt → is_edge s t ≡ true
unfolding validate_transition allowed_roles
validate_transition-edge s t role e = ground arith

-- One order is replaced by another that its status may lead to.
abbrev pub Moved : ℕ → Table Order → Table Order → Order → Type 0
Moved k t t' o' = (o : Order) × (lookup k t ≡ some o) × (t' ≡ put k o' t) × Near o.status o'.status

-- Whatever stood under a key before, it is gone after, or at a status that the old one leads to.
abbrev GoesOn : ℕ → Table Order → Table Order → Type 0
GoesOn k t t' =
    (o : Order)
    → lookup k t ≡ some o
    → (lookup k t' ≡ none) ⊎ ((o' : Order) × (lookup k t' ≡ some o') × Near o.status o'.status)

-- And what was not there before is not there after.
abbrev pub Keeps : ℕ → Table Order → Table Order → Type 0
Keeps k t t' = GoesOn k t t' × (lookup k t ≡ none → lookup k t' ≡ none)

pub Moved-Keeps : (k j : ℕ) (t t' : Table Order) (a : Order) → Moved j t t' a → Keeps k t t'
Moved-Keeps k j t t' a (before, found, stored, near) = (
  λ o h. elim (Bool-cases (j == k)) [
    | inl this ↦
        let id : j ≡ k = ground arith in
        let same : before ≡ o = ground arith in
        inr (a, rw stored (ground (arith, lookup-put j k a t)), rw (← same) near)
    | inr other ↦ inr (o, rw stored (ground (arith, lookup-put j k a t)), inl refl)
  ],
  λ missing. rw stored (ground (arith, lookup-put j k a t)),
)

pub new-Keeps :
    (k id : ℕ) (t t' : Table Order) (a : Order) → k ≢ id → t' ≡ put id a t → Keeps k t t'
new-Keeps k id t t' a other stored = (
  λ o h. inr (o, rw stored (ground (arith, lookup-put id k a t)), inl refl),
  λ missing. rw stored (ground (arith, lookup-put id k a t)),
)

pub removed-Keeps : (k j : ℕ) (t t' : Table Order) → t' ≡ remove j t → Keeps k t t'
removed-Keeps k j t t' stored = elim (Bool-cases (j == k)) [
  | inl this ↦
      let id : j ≡ k = ground arith in
      let gone : lookup k t' ≡ none = rw (stored, id) (lookup-remove_self k t) in
      (λ o h. inl gone, λ missing. gone)
  | inr other ↦
      let same : lookup k t' ≡ lookup k t = rw stored (lookup-remove_ne j k t (ground arith)) in
      (λ o h. inr (o, same ∙ h, inl refl), λ missing. same ∙ missing)
]

pub same-Keeps : (k : ℕ) (t t' : Table Order) → t' ≡ t → Keeps k t t'
same-Keeps k t t' same = (λ o h. inr (o, rw same h, inl refl), λ missing. rw same missing)
