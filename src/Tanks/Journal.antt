-- ===== src/Tanks/Journal.antt =====
-- The journal of the tanks accounts for their volumes: after any sequence of the operations of
-- tank_service.py whose corrections only raise a volume, each tank holds the signed sum of its rows.
use balt_oil.Prelude.{ℕ, ◌≡◌, ◌≢◌, not, refl, some, List, [], ◌∷◌, ◌++◌, ◌==◌, if◌then◌else◌, keep}
use balt_oil.Prelude.Int.{ℤ, pos, ◌+ℤ◌, ◌-ℤ◌, int_laws}
use balt_oil.Table.{lookup, put, lookup-put}
use balt_oil.Tanks.Defs.{
  TankTxKind, arrival, issue, transfer_in, transfer_out, adjust, expense, FuelTank, TankTransaction,
  Depot,
}

-- By its kind a row adds its volume to the tank or takes it off. A correction counts as a gain.
abbrev pub signed : TankTxKind → ℤ → ℤ
signed arrival v = v
signed transfer_in v = v
signed adjust v = v
signed issue v = pos 0 -ℤ v
signed expense v = pos 0 -ℤ v
signed transfer_out v = pos 0 -ℤ v

abbrev pub balance : ℕ → List TankTransaction → ℤ
balance k [] = pos 0
balance k (tx ∷ txs) =
    (if tx.tank_id == k then signed tx.kind tx.volume else pos 0) +ℤ balance k txs

abbrev pub Accounted : Depot → Type 0
Accounted s =
    (k : ℕ) (t : FuelTank) → lookup k s.tanks ≡ some t → t.current_volume ≡ balance k s.journal

pub balance-append :
    (k : ℕ) (xs ys : List TankTransaction) → balance k (xs ++ ys) ≡ balance k xs +ℤ balance k ys
balance-append k [] ys = omega int_laws
balance-append k (x ∷ xs) ys = rw (balance-append k xs ys) (omega int_laws)

pub balance-keep :
    (k j : ℕ) (xs : List TankTransaction)
    → k ≢ j
    → balance j (keep (λ (tx : TankTransaction). not (tx.tank_id == k)) xs) ≡ balance j xs
balance-keep k j [] h = refl
balance-keep k j (x ∷ xs) h = grind (int_laws, balance-keep k j xs h)

-- One posting: a tank changes by the signed volume of one new row of the journal.
pub record Posted (k : ℕ) (s s' : Depot) : Type 0 where
  pub old : FuelTank
  pub new : FuelTank
  pub row : TankTransaction
  pub found : lookup k s.tanks ≡ some old
  pub stored : s'.tanks ≡ put k new s.tanks
  pub logged : s'.journal ≡ s.journal ++ (row ∷ [])
  pub names : row.tank_id ≡ k
  pub moved : new.current_volume ≡ old.current_volume +ℤ signed row.kind row.volume

pub balance-row :
    (k : ℕ) (row : TankTransaction) (j : ℕ)
    → row.tank_id ≡ k
    → balance j (row ∷ []) ≡ (if k == j then signed row.kind row.volume else pos 0)
balance-row k row j e = grind int_laws

-- A posting keeps the journal in step with the volumes.
pub Posted-Accounted : (k : ℕ) (s s' : Depot) → Posted k s s' → Accounted s → Accounted s'
Posted-Accounted k s s' p acc j t h =
    let after : lookup j s'.tanks ≡ (if k == j then some p.new else lookup j s.tanks) =
      rw p.stored (lookup-put k j p.new s.tanks) in
    rw (p.logged, balance-append j s.journal (p.row ∷ []), balance-row k p.row j p.names)
      (grind (int_laws, after, acc k p.old p.found, acc j t))
