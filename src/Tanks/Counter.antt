-- ===== src/Tanks/Counter.antt =====
-- The pump counter: six digits that run through 999999 to 0. What `_counter_delta` computes, what
-- `record_issue` does on every branch, and that every reading in the tables keeps six digits.
use balt_oil.Prelude.{
  Option-cases, inl, inr, ℕ, ◌+◌, ◌%◌, ◌<◌, ◌≡◌, ◌≢◌, ◌↔◌, Option, none, some, [], ◌∷◌, ◌++◌, arith,
  true,
}
use balt_oil.Prelude.Int.{◌-ℤ◌}
use balt_oil.Table.{lookup, lookup-put_self}
use balt_oil.Text.{Text}
use balt_oil.Service.{TokenUser, is_worker, ok, err, not_found, validation, Result}
use balt_oil.Tanks.Defs.{
  FuelTank, TankTransaction, Depot, TankIssue, counter_modulus, counter_delta, litres,
}
use balt_oil.Tanks.Ops.{record_issue}

-- The litres by the counter are the only number of litres below a full turn that takes the counter
-- from the old reading to the new one, for two readings of six digits.
pub counter_delta_iff :
    (before after n : ℕ)
    → before < counter_modulus
    → after < counter_modulus
    → (counter_delta before after ≡ n)
      ↔ ((n < counter_modulus) × ((before + n) % counter_modulus ≡ after))
unfolding counter_delta
counter_delta_iff before after n hb ha = ground arith

-- What the handler answers, by the tank that it finds and by its result.
abbrev pub IssueEffect :
    ℕ → TankIssue → Depot → Option FuelTank → Result (Depot × TankTransaction) → Type 0
IssueEffect k data' s none r = r ≡ err not_found
IssueEffect k data' s (some t) (err e) = (e ≡ validation) × (data'.counter_after ≡ t.counter)
IssueEffect k data' s (some t) (ok (s', tx)) =
    let poured = counter_delta t.counter data'.counter_after in
    (data'.counter_after ≢ t.counter)
    × (lookup k s'.tanks
        ≡ some (record t {
          counter = data'.counter_after;
          current_volume = t.current_volume -ℤ litres poured;
        }))
    × (s'.journal ≡ s.journal ++ (tx ∷ []))
    × (tx.volume ≡ litres poured)
    × (tx.counter_before ≡ t.counter)
    × (tx.counter_after ≡ data'.counter_after)

-- For a worker, a reading of six digits and a tank whose counter has six: `record_issue` answers
-- "not found" without the tank, and refuses exactly the reading that the counter already shows. Any
-- other reading becomes the counter, takes the litres by the counter off the volume, leaves the
-- rest of the tank, and appends one row with that volume and both readings.
pub record_issue_effect :
    (name : Option Text) (k : ℕ) (data' : TankIssue) (actor : TokenUser) (s : Depot)
    → is_worker actor.role ≡ true
    → data'.counter_after < counter_modulus
    → ((t : FuelTank) → lookup k s.tanks ≡ some t → t.counter < counter_modulus)
    → IssueEffect k data' s (lookup k s.tanks) (record_issue name k data' actor s)
unfolding record_issue counter_delta
record_issue_effect name k data' actor s role six old = elim (Option-cases (lookup k s.tanks)) [
  | inl e ↦ rw e (ground arith)
  | inr (t, e) ↦ ground (arith, e, old t e, lookup-put_self k (poured t) s.tanks)
]
  where
    poured : FuelTank → FuelTank
    poured t = record t {
      counter = data'.counter_after;
      current_volume = t.current_volume -ℤ litres (counter_delta t.counter data'.counter_after);
    }
