-- ===== src/Trips/Reconcile.antt =====
-- The recount of the stock from the journal.
use balt_oil.Trips.Inventory.{balance_of, reconcile_stock, reset_stock, stock_of}
use balt_oil.Trips.Defs.{FuelTransaction, Store}
use balt_oil.Service.{TokenUser, ok}
use balt_oil.Table.{Table, lookup, lookup-put, lookup-put_self, put}
use balt_oil.Prelude.Int.{ℤ}
use balt_oil.Prelude.{
  Bool-cases, List, [], any, arith, false, inl, inr, map, refl, true, ℕ, ◌++◌, ◌==◌, ◌∙◌, ◌∷◌, ◌≡◌,
}

lookup-reset_stock :
    (txs : List FuelTransaction) (fuel : ℕ) (fuels : List ℕ) (stock : Table ℤ)
    → any (λ f. f == fuel) fuels ≡ false
    → lookup fuel (reset_stock txs fuels stock) ≡ lookup fuel stock
lookup-reset_stock txs fuel [] stock h = refl
lookup-reset_stock txs fuel (f ∷ rest) stock h =
    let differs : (f == fuel) ≡ false = ground arith in
    lookup-reset_stock txs fuel rest (put f (balance_of f txs) stock) (ground arith)
    ∙ rw (lookup-put f fuel (balance_of f txs) stock, differs) refl

stock_of-reset_stock :
    (txs : List FuelTransaction) (fuel : ℕ) (fuels : List ℕ) (stock : Table ℤ)
    → any (λ f. f == fuel) fuels ≡ true
    → stock_of fuel (reset_stock txs fuels stock) ≡ balance_of fuel txs
stock_of-reset_stock txs fuel [] stock h = cc
stock_of-reset_stock txs fuel (f ∷ rest) stock h = elim (Bool-cases (any (λ g. g == fuel) rest)) [
  | inl again ↦ stock_of-reset_stock txs fuel rest (put f (balance_of f txs) stock) again
  | inr last ↦
      let same : f ≡ fuel = ground arith in
      rw
        (
          lookup-reset_stock txs fuel rest (put f (balance_of f txs) stock) last,
          same,
          lookup-put_self fuel (balance_of fuel txs) stock,
        )
        refl
]

-- Whatever the stock was, after a recount every fuel that has a row or stands in the catalog has
-- the signed sum of its rows, and the journal is the same.
pub reconcile_stock_corrects :
    (fuel_codes : List ℕ) (actor : TokenUser) (s s' : Store) (fuel : ℕ)
    → reconcile_stock fuel_codes actor s ≡ ok s'
    → any
        (λ f. f == fuel)
        (map (λ (tx : FuelTransaction). tx.fuel_type) s.transactions ++ fuel_codes)
      ≡ true
    → (stock_of fuel s'.stock ≡ balance_of fuel s'.transactions)
      × (s'.transactions ≡ s.transactions)
unfolding reconcile_stock
reconcile_stock_corrects fuel_codes actor s s' fuel e member =
    let fuels : List ℕ =
      map (λ (tx : FuelTransaction). tx.fuel_type) s.transactions ++ fuel_codes in
    let stored : s'.stock ≡ reset_stock s.transactions fuels s.stock = ground arith in
    let kept : s'.transactions ≡ s.transactions = ground arith in
    (rw (stored, kept) (stock_of-reset_stock s.transactions fuel fuels s.stock member), kept)
