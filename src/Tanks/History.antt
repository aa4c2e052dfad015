-- ===== src/Tanks/History.antt =====
-- Sequences of the operations of tank_service.py and of deletions of orders, and what the journal says after any of them.
use balt_oil.Tanks.Removal.{of_order, unadjusted, undo_order, undo_order-Accounted}
use balt_oil.Prelude.{
  keep, not, Bool-cases, ap, sym, ◌∙◌, ◌≢◌, or_default, true, ◌++◌, inl, inr, some, ℕ, ◌≡◌, false,
  any, Option, Option-cases, refl, none, List, [], ◌∷◌, arith, ◌==◌, if◌then◌else◌,
}
use balt_oil.Table.{put, remove, lookup-put, lookup-remove_self, lookup-remove_ne, lookup}
use balt_oil.Prelude.Int.{ltb_ℤ, ℤ, pos, ◌≤ℤ◌, int_laws}
use balt_oil.Tanks.Ops.{
  entry, new_name, create_tank, update_tank, delete_tank, adjust_tank, record_arrival, record_issue,
  record_expense_from_tank, transfer,
}
use balt_oil.Text.{strip, Text}
use balt_oil.Service.{TokenUser, ok}
use balt_oil.Tanks.Defs.{
  adjust, initial_balance, FuelTank, TankTransaction, Depot, TankCreate, TankUpdate, TankAdjust,
  TankArrival, TankIssue, TankTransfer, Labels, TankResponse,
}
use balt_oil.Tanks.Journal.{
  balance-append, balance-row, balance-keep, balance, Accounted, Posted-Accounted,
}
use balt_oil.Tanks.Postings.{
  record_arrival-Posted, record_issue-Posted, record_expense_from_tank-Posted, adjust_tank-Posted,
}
use balt_oil.Tanks.Transfers.{transfer-Posted}

-- A new identifier (`uuid4`): no tank has it and no row of the journal names it.
abbrev pub IsFresh : ℕ → Depot → Type 0
IsFresh k s =
    (lookup k s.tanks ≡ none) × (any (λ (tx : TankTransaction). tx.tank_id == k) s.journal ≡ false)

-- A correction that lowers no volume.
abbrev pub Raises : ℕ → TankAdjust → Depot → Type 0
Raises k data' s =
    (t : FuelTank) (v : ℤ)
    → lookup k s.tanks ≡ some t
    → data'.volume ≡ some v
    → t.current_volume ≤ℤ v

-- One successful request. `created` has the bound that the schema puts on the first volume.
pub data Step (s s' : Depot) : Type 0 where
  created :
      (k : ℕ) (labels : Labels) (name : Option Text) (data' : TankCreate) (actor : TokenUser)
      (r : TankResponse)
      → IsFresh k s
      → pos 0 ≤ℤ data'.initial_volume
      → create_tank k labels name data' actor s ≡ ok (s', r)
      → Step s s'
  updated :
      (labels : Labels) (k : ℕ) (data' : TankUpdate) (actor : TokenUser) (r : TankResponse)
      → update_tank labels k data' actor s ≡ ok (s', r)
      → Step s s'
  deleted : (k : ℕ) (actor : TokenUser) → delete_tank k actor s ≡ ok s' → Step s s'
  adjusted :
      (labels : Labels) (name : Option Text) (k : ℕ) (data' : TankAdjust) (actor : TokenUser)
      (r : TankResponse)
      → adjust_tank labels name k data' actor s ≡ ok (s', r)
      → Step s s'
  arrived :
      (labels : Labels) (name : Option Text) (k : ℕ) (data' : TankArrival) (actor : TokenUser)
      (r : TankResponse)
      → record_arrival labels name k data' actor s ≡ ok (s', r)
      → Step s s'
  issued :
      (name : Option Text) (k : ℕ) (data' : TankIssue) (actor : TokenUser) (r : TankTransaction)
      → record_issue name k data' actor s ≡ ok (s', r)
      → Step s s'
  spent :
      (k : ℕ) (volume : ℤ) (counter_after : Option ℕ) (actor : TokenUser) (name notes : Option Text)
      → record_expense_from_tank k volume counter_after actor name notes s ≡ ok s'
      → Step s s'
  transferred :
      (labels : Labels) (name : Option Text) (data' : TankTransfer) (actor : TokenUser)
      (r : List TankResponse)
      → transfer labels name data' actor s ≡ ok (s', r)
      → Step s s'
  order_deleted : (order_id : ℕ) → s' ≡ undo_order order_id s → Step s s'

pub data Reach (s : Depot) : Depot → Type 0 where
  here : Reach s s
  next : {t u : Depot} → Reach s t → Step t u → Reach s u

-- The journal says which way a correction went: it lowers no volume, and none is deleted with an
-- order, which would leave its volume behind.
abbrev IsSteady : (s s' : Depot) → Step s s' → Type 0
IsSteady s s' (adjusted labels name k data' actor r e) = Raises k data' s
IsSteady s s' (order_deleted order_id e) = unadjusted (keep (of_order order_id) s.journal) ≡ true
IsSteady s s' step = Unit

abbrev pub AllSteady : (s s' : Depot) → Reach s s' → Type 0
AllSteady s s' here = Unit
AllSteady s s' (next {t = t} {u = u} r step) = AllSteady s t r × IsSteady t u step

balance-fresh :
    (k : ℕ) (xs : List TankTransaction)
    → any (λ (tx : TankTransaction). tx.tank_id == k) xs ≡ false
    → balance k xs ≡ pos 0
balance-fresh k [] h = refl
balance-fresh k (x ∷ xs) h = grind (int_laws, balance-fresh k xs)

create_tank-Accounted :
    (k : ℕ) (labels : Labels) (name : Option Text) (data' : TankCreate) (actor : TokenUser)
    (s s' : Depot) (r : TankResponse)
    → IsFresh k s
    → pos 0 ≤ℤ data'.initial_volume
    → create_tank k labels name data' actor s ≡ ok (s', r)
    → Accounted s
    → Accounted s'
unfolding create_tank
create_tank-Accounted k labels name data' actor s s' r fresh size e acc j t h =
    let new : FuelTank = record {
      name = strip data'.name;
      fuel_type = data'.fuel_type;
      current_volume = data'.initial_volume;
      counter = data'.counter;
      is_active = true;
    } in
    let first =
      entry k adjust data'.initial_volume data'.counter data'.counter actor name
        (some initial_balance) in
    let stored : s'.tanks ≡ put k new s.tanks = ground arith in
    let after : lookup j s'.tanks ≡ (if k == j then some new else lookup j s.tanks) =
      rw stored (lookup-put k j new s.tanks) in
    elim (Bool-cases (ltb_ℤ (pos 0) data'.initial_volume)) [
      | inl some_fuel ↦
          let logged : s'.journal ≡ s.journal ++ (first ∷ []) = ground arith in
          rw (logged, balance-append j s.journal (first ∷ []), balance-row k first j refl)
            (grind (int_laws, after, acc j t, balance-fresh k s.journal fresh.1))
      | inr no_fuel ↦
          let logged : s'.journal ≡ s.journal = ground arith in
          rw logged (grind (int_laws, after, acc j t, balance-fresh k s.journal fresh.1))
    ]

update_tank-Accounted :
    (labels : Labels) (k : ℕ) (data' : TankUpdate) (actor : TokenUser) (s s' : Depot)
    (r : TankResponse)
    → update_tank labels k data' actor s ≡ ok (s', r)
    → Accounted s
    → Accounted s'
unfolding update_tank
update_tank-Accounted labels k data' actor s s' r e acc j t h =
    elim (Option-cases (lookup k s.tanks)) [
      | inl missing ↦ absurd (ground arith)
      | inr (old, found) ↦
          let new : FuelTank = record old {
            name = new_name data'.name old.name;
            fuel_type = or_default data'.fuel_type old.fuel_type;
            is_active = or_default data'.is_active old.is_active;
          } in
          let stored : s'.tanks ≡ put k new s.tanks = ground arith in
          let logged : s'.journal ≡ s.journal = ground arith in
          let after : lookup j s'.tanks ≡ (if k == j then some new else lookup j s.tanks) =
            rw stored (lookup-put k j new s.tanks) in
          rw logged (grind (arith, after, acc j t, acc k old found))
    ]

delete_tank-Accounted :
    (k : ℕ) (actor : TokenUser) (s s' : Depot)
    → delete_tank k actor s ≡ ok s'
    → Accounted s
    → Accounted s'
unfolding delete_tank
delete_tank-Accounted k actor s s' e acc j t h =
    let stored : s'.tanks ≡ remove k s.tanks = ground arith in
    let logged : s'.journal ≡ keep (λ (tx : TankTransaction). not (tx.tank_id == k)) s.journal =
      ground arith in
    elim (Bool-cases (k == j)) [
      | inl same ↦ absurd (ground (arith, ap (lookup j) stored, lookup-remove_self k s.tanks))
      | inr other ↦
          let differ : k ≢ j = ground arith in
          rw (logged, balance-keep k j s.journal differ)
            (acc j t (sym (ap (lookup j) stored ∙ lookup-remove_ne k j s.tanks differ) ∙ h))
    ]

-- A successful operation keeps the journal in step with the volumes.
pub Step-Accounted :
    (s s' : Depot) (step : Step s s') → IsSteady s s' step → Accounted s → Accounted s'
Step-Accounted s s' (created k labels name data' actor r fresh size e) tt acc =
    create_tank-Accounted k labels name data' actor s s' r fresh size e acc
Step-Accounted s s' (updated labels k data' actor r e) tt acc =
    update_tank-Accounted labels k data' actor s s' r e acc
Step-Accounted s s' (deleted k actor e) tt acc = delete_tank-Accounted k actor s s' e acc
Step-Accounted s s' (adjusted labels name k data' actor r e) up acc =
    Posted-Accounted k s s' (adjust_tank-Posted labels name k data' actor s s' r e up) acc
Step-Accounted s s' (arrived labels name k data' actor r e) tt acc =
    Posted-Accounted k s s' (record_arrival-Posted labels name k data' actor s s' r e) acc
Step-Accounted s s' (issued name k data' actor r e) tt acc =
    Posted-Accounted k s s' (record_issue-Posted name k data' actor s s' r e).0 acc
Step-Accounted s s' (spent k volume counter_after actor name notes e) tt acc =
    Posted-Accounted k s s'
      (record_expense_from_tank-Posted k volume counter_after actor name notes s s' e) acc
Step-Accounted s s' (transferred labels name data' actor r e) tt acc =
    let (between, out, in_) = transfer-Posted labels name data' actor s s' r e in
    Posted-Accounted data'.to_tank_id between s' in_
      (Posted-Accounted data'.from_tank_id s between out acc)
Step-Accounted s s' (order_deleted order_id e) plain acc =
    rw e (undo_order-Accounted order_id s plain acc)

-- After any sequence of operations and of deletions of orders, in which no correction lowers a volume
-- and no deleted order has a correction, each tank holds the signed sum of its rows in the journal,
-- if each did before. A new tank has a new identifier and a first volume of at least 0.
pub Reach-Accounted :
    {s s' : Depot} → Accounted s → (r : Reach s s') → AllSteady s s' r → Accounted s'
Reach-Accounted acc here lowers = acc
Reach-Accounted {s = s} acc (next {t = t} {u = u} r step) (before, last) =
    Step-Accounted t u step last (Reach-Accounted {s = s} {s' = t} acc r before)
