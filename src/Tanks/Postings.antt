-- ===== src/Tanks/Postings.antt =====
-- Each operation of tank_service.py that moves fuel is a posting (or two, for a transfer): the tank
-- changes by the signed volume of the row that the operation writes.
use mathlib.Core.Option
use balt_oil.Prelude.{ℕ, ◌≡◌, Option, Option-cases, inl, inr, refl, none, some, arith, or_default}
use balt_oil.Prelude.Int.{ℤ, pos, ◌+ℤ◌, ◌-ℤ◌, ◌≤ℤ◌, int_laws, abs}
use balt_oil.Table.{lookup}
use balt_oil.Text.{Text}
use balt_oil.Service.{TokenUser, ok, Result-cases}
use balt_oil.Tanks.Defs.{
  arrival, adjust, expense, FuelTank, TankTransaction, Depot, comment, correction, TankAdjust,
  TankArrival, TankIssue, Labels, TankResponse, litres, counter_delta, issue,
}
use balt_oil.Tanks.Ops.{
  adjust_tank, record_arrival, record_issue, note_or, expense_reading, record_expense_from_tank,
  entry,
}
use balt_oil.Tanks.Journal.{signed, Posted}

pub record_arrival-Posted :
    (labels : Labels) (name : Option Text) (k : ℕ) (data' : TankArrival) (actor : TokenUser)
    (s s' : Depot) (r : TankResponse)
    → record_arrival labels name k data' actor s ≡ ok (s', r)
    → Posted k s s'
unfolding record_arrival
record_arrival-Posted labels name k data' actor s s' r e = elim (Option-cases (lookup k s.tanks)) [
  | inl missing ↦ absurd (ground arith)
  | inr (t, found) ↦ record {
    old = t;
    new = record t { current_volume = t.current_volume +ℤ data'.volume };
    row =
        entry k arrival data'.volume t.counter t.counter actor name
          (Option.map comment data'.notes);
    found = found;
    stored = ground arith;
    logged = ground arith;
    names = refl;
    moved = refl;
  }
]

pub record_issue-Posted :
    (name : Option Text) (k : ℕ) (data' : TankIssue) (actor : TokenUser) (s s' : Depot)
    (tx : TankTransaction)
    → record_issue name k data' actor s ≡ ok (s', tx)
    → (p : Posted k s s') × (p.row.kind ≡ issue)
unfolding record_issue
record_issue-Posted name k data' actor s s' tx e = elim (Option-cases (lookup k s.tanks)) [
  | inl missing ↦ absurd (ground arith)
  | inr (t, found) ↦ (
    record {
      old = t;
      new = record t {
        counter = data'.counter_after;
        current_volume = t.current_volume -ℤ litres (counter_delta t.counter data'.counter_after);
      };
      row = tx;
      found = found;
      stored = ground arith;
      logged = ground arith;
      names = ground arith;
      moved =
          let off : signed tx.kind tx.volume
              ≡ pos 0 -ℤ litres (counter_delta t.counter data'.counter_after) =
            ground arith in
          rw off (omega int_laws);
    },
    ground arith,
  )
]

pub record_expense_from_tank-Posted :
    (k : ℕ) (volume : ℤ) (counter_after : Option ℕ) (actor : TokenUser) (name notes : Option Text)
    (s s' : Depot)
    → record_expense_from_tank k volume counter_after actor name notes s ≡ ok s'
    → Posted k s s'
unfolding record_expense_from_tank
record_expense_from_tank-Posted k volume counter_after actor name notes s s' e =
    elim (Option-cases (lookup k s.tanks)) [
      | inl missing ↦ absurd (ground arith)
      | inr (t, found) ↦
          elim (Result-cases (expense_reading t.counter counter_after volume notes)) [
            | inr (refused, why) ↦ absurd (ground arith)
            | inl ((counter', note), reading) ↦ record {
              old = t;
              new = record t { counter = counter'; current_volume = t.current_volume -ℤ volume };
              row = entry k expense volume t.counter counter' actor name note;
              found = found;
              stored = ground arith;
              logged = ground arith;
              names = refl;
              moved = omega int_laws;
            }
          ]
    ]

abbrev change : Option ℤ → FuelTank → ℤ
change none t = pos 0
change (some v) t = v -ℤ t.current_volume

change-abs :
    (volume : Option ℤ) (t : FuelTank)
    → ((v : ℤ) → volume ≡ some v → t.current_volume ≤ℤ v)
    → or_default volume t.current_volume ≡ t.current_volume +ℤ pos (abs (change volume t))
unfolding ◌+ℤ◌ ◌-ℤ◌
change-abs none t raises = ground arith
change-abs (some v) t raises = ground (arith, raises v refl)

pub adjust_tank-Posted :
    (labels : Labels) (name : Option Text) (k : ℕ) (data' : TankAdjust) (actor : TokenUser)
    (s s' : Depot) (r : TankResponse)
    → adjust_tank labels name k data' actor s ≡ ok (s', r)
    → ((t : FuelTank) (v : ℤ)
        → lookup k s.tanks ≡ some t
        → data'.volume ≡ some v
        → t.current_volume ≤ℤ v)
    → Posted k s s'
unfolding adjust_tank
adjust_tank-Posted labels name k data' actor s s' r e raises =
    elim (Option-cases (lookup k s.tanks)) [
      | inl missing ↦ absurd (ground arith)
      | inr (t, found) ↦ record {
        old = t;
        new = record t {
          current_volume = or_default data'.volume t.current_volume;
          counter = or_default data'.counter t.counter;
        };
        row =
            entry k adjust (pos (abs (change data'.volume t))) t.counter
              (or_default data'.counter t.counter) actor name
              (some (note_or data'.notes (correction (change data'.volume t))));
        found = found;
        stored = ground arith;
        logged = ground arith;
        names = refl;
        moved = change-abs data'.volume t (λ v. raises t v found);
      }
    ]
