-- ===== src/Tanks/Removal.antt =====
-- The tanks in `handle_order_deleted` of app/services/redis_subscriber.py: what the rows of a deleted
-- order took from a tank comes back, and the rows go.
use mathlib.Core.Path.{subst}
use balt_oil.Table.{Table, lookup, put, lookup-put}
use balt_oil.Prelude.{
  Bool, List, [], any, arith, false, if◌then◌else◌, keep, none, not, same_id, some, true, ℕ, ◌∷◌,
  ◌≡◌, Bool-cases, Option-cases, inl, inr, refl, sym, ◌==◌, ◌∙◌,
}
use balt_oil.Tanks.Journal.{Accounted, balance, balance-append, signed}
use balt_oil.Tanks.Defs.{Depot, FuelTank, TankTransaction, TankTxKind, adjust, arrival, transfer_in}
use balt_oil.Prelude.Int.{int_laws, pos, ℤ, ◌+ℤ◌, ◌-ℤ◌}

abbrev pub is_adjust : TankTxKind → Bool
is_adjust adjust = true
is_adjust _ = false

abbrev pub is_incoming : TankTxKind → Bool
is_incoming arrival = true
is_incoming transfer_in = true
is_incoming _ = false

abbrev pub reversed : TankTransaction → ℤ
reversed tx = if is_incoming tx.kind then pos 0 -ℤ tx.volume else tx.volume

-- A correction does not say which way it went; a tank may be gone.
abbrev pub undo_row : TankTransaction → Table FuelTank → Table FuelTank
undo_row tx tanks = elim (lookup tx.tank_id tanks) [
  | none ↦ tanks
  | some t ↦
      if is_adjust tx.kind
      then tanks
      else put tx.tank_id (record t { current_volume = t.current_volume +ℤ reversed tx }) tanks
]

abbrev pub undo_rows : List TankTransaction → Table FuelTank → Table FuelTank
undo_rows [] tanks = tanks
undo_rows (tx ∷ txs) tanks = undo_rows txs (undo_row tx tanks)

abbrev pub of_order : ℕ → TankTransaction → Bool
of_order k tx = same_id tx.order_id k

unfoldable pub undo_order : ℕ → Depot → Depot
undo_order k s = record {
  tanks = undo_rows (keep (of_order k) s.journal) s.tanks;
  journal = keep (λ (tx : TankTransaction). not (of_order k tx)) s.journal;
}

abbrev pub unadjusted : List TankTransaction → Bool
unadjusted rows = not (any (λ (tx : TankTransaction). is_adjust tx.kind) rows)

reversed-signed :
    (tx : TankTransaction)
    → is_adjust tx.kind ≡ false
    → reversed tx +ℤ signed tx.kind tx.volume ≡ pos 0
reversed-signed tx plain = grind int_laws

undo_row-tank :
    (tx : TankTransaction) (tanks : Table FuelTank) (j : ℕ) (t' : FuelTank)
    → is_adjust tx.kind ≡ false
    → lookup j (undo_row tx tanks) ≡ some t'
    → (t : FuelTank) × (lookup j tanks ≡ some t)
      × (t'.current_volume +ℤ balance j (tx ∷ []) ≡ t.current_volume)
undo_row-tank tx tanks j t' plain held = elim (Option-cases (lookup tx.tank_id tanks)) [
  | inl gone ↦
      let same : undo_row tx tanks ≡ tanks = rw (gone, undo_row) refl in
      let here : lookup j tanks ≡ some t' = rw (← same) held in
      let other : (tx.tank_id == j) ≡ false = ground (arith, gone, here) in
      (t', here, rw other (grind int_laws))
  | inr (old, found) ↦
      let new : FuelTank = record old { current_volume = old.current_volume +ℤ reversed tx } in
      let moved : undo_row tx tanks ≡ put tx.tank_id new tanks = rw (found, undo_row, plain) refl in
      let after : lookup j (undo_row tx tanks)
          ≡ (if tx.tank_id == j then some new else lookup j tanks) =
        rw moved (lookup-put tx.tank_id j new tanks) in
      elim (Bool-cases (tx.tank_id == j)) [
        | inl this ↦
            let id : tx.tank_id ≡ j = ground arith in
            let here : lookup j tanks ≡ some old =
              subst (λ d. lookup d tanks ≡ some old) id found in
            let now_ : t' ≡ new = ground (arith, after, held, this) in
            rw (now_, this) (old, here, grind (int_laws, reversed-signed tx plain))
        | inr other ↦
            let here : lookup j tanks ≡ some t' = ground (arith, after, held, other) in
            rw other (t', here, grind int_laws)
      ]
]

three : (v x y : ℤ) {a b : ℤ} → v +ℤ y ≡ a → a +ℤ x ≡ b → v +ℤ (x +ℤ y) ≡ b
three v x y e e' = grind (int_laws, e, e')

pub cancel : (v x y a : ℤ) → v +ℤ x ≡ a → y +ℤ x ≡ a → v ≡ y
cancel v x y a e e' = grind (int_laws, e, e')

undo_rows-tank :
    (txs : List TankTransaction) (tanks : Table FuelTank) (j : ℕ) (t' : FuelTank)
    → unadjusted txs ≡ true
    → lookup j (undo_rows txs tanks) ≡ some t'
    → (t : FuelTank) × (lookup j tanks ≡ some t)
      × (t'.current_volume +ℤ balance j txs ≡ t.current_volume)
undo_rows-tank [] tanks j t' plain held = (t', held, omega int_laws)
undo_rows-tank (tx ∷ txs) tanks j t' plain held =
    let (t1, held1, e1) = undo_rows-tank txs (undo_row tx tanks) j t' (ground arith) held in
    let (t, before, e) = undo_row-tank tx tanks j t1 (ground arith) held1 in
    let first : balance j (tx ∷ txs) ≡ balance j (tx ∷ []) +ℤ balance j txs =
      balance-append j (tx ∷ []) txs in
    (t, before, rw first (three (t'.current_volume) (balance j (tx ∷ [])) (balance j txs) e1 e))

balance-split :
    (j : ℕ) (p : TankTransaction → Bool) (txs : List TankTransaction)
    → balance j (keep (λ (tx : TankTransaction). not (p tx)) txs) +ℤ balance j (keep p txs)
      ≡ balance j txs
balance-split j p [] = omega int_laws
balance-split j p (tx ∷ txs) = grind (int_laws, balance-split j p txs)

-- The removal of an order without corrections keeps the journal in step with the volumes.
pub undo_order-Accounted :
    (k : ℕ) (s : Depot)
    → unadjusted (keep (of_order k) s.journal) ≡ true
    → Accounted s
    → Accounted (undo_order k s)
unfolding undo_order
undo_order-Accounted k s plain acc j t' held =
    let rows = keep (of_order k) s.journal in
    let (t, before, e) = undo_rows-tank rows s.tanks j t' plain held in
    cancel t'.current_volume (balance j rows) _ t.current_volume e
      (balance-split j (of_order k) s.journal ∙ sym (acc j t before))
