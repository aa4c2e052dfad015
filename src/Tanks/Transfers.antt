-- ===== src/Tanks/Transfers.antt =====
-- A transfer between tanks (`transfer` of tank_service.py) is two postings, and conserves the fuel.
use mathlib.Core.List.{append_assoc}
use balt_oil.Prelude.{
  ℕ, ◌≡◌, ◌≢◌, Option, Option-cases, inl, inr, refl, some, List, [], ◌∷◌, arith, ap, sym, ◌∙◌,
}
use balt_oil.Prelude.Int.{ℤ, ◌+ℤ◌, ◌-ℤ◌, int_laws}
use balt_oil.Table.{lookup, lookup-put_ne, sum_rows, sum_rows-put}
use balt_oil.Text.{Text}
use balt_oil.Service.{TokenUser, ok}
use balt_oil.Tanks.Defs.{FuelTank, Depot, TankTransfer, Labels, TankResponse}
use balt_oil.Tanks.Ops.{transfer, outgoing, incoming, append, set_tank}
use balt_oil.Tanks.Journal.{signed, Posted}

-- What a transfer has done: the two tanks that it found, and the two rows that it wrote.
abbrev pub Moved :
    Labels → Option Text → TankTransfer → TokenUser → Depot → Depot → FuelTank → FuelTank → Type 0
Moved labels name data' actor s s' src dst =
    let a = data'.from_tank_id in
    let b = data'.to_tank_id in
    let src' : FuelTank = record src { current_volume = src.current_volume -ℤ data'.volume } in
    let dst' : FuelTank = record dst { current_volume = dst.current_volume +ℤ data'.volume } in
    (a ≢ b)
    × (s'
        ≡ append (outgoing name data' actor src ∷ incoming name data' actor dst ∷ [])
            (set_tank b dst' (set_tank a src' s)))

transfer-Moved :
    (labels : Labels) (name : Option Text) (data' : TankTransfer) (actor : TokenUser) (s s' : Depot)
    (r : List TankResponse)
    → transfer labels name data' actor s ≡ ok (s', r)
    → (src dst : FuelTank) × (lookup data'.from_tank_id s.tanks ≡ some src)
      × (lookup data'.to_tank_id s.tanks ≡ some dst)
      × Moved labels name data' actor s s' src dst
unfolding transfer
transfer-Moved labels name data' actor s s' r e =
    elim (Option-cases (lookup data'.from_tank_id s.tanks)) [
      | inl missing ↦ absurd (ground arith)
      | inr (src, from) ↦ elim (Option-cases (lookup data'.to_tank_id s.tanks)) [
        | inl missing ↦ absurd (ground arith)
        | inr (dst, to) ↦ (src, dst, from, to, (ground arith, ground arith))
      ]
    ]

pub transfer-Posted :
    (labels : Labels) (name : Option Text) (data' : TankTransfer) (actor : TokenUser) (s s' : Depot)
    (r : List TankResponse)
    → transfer labels name data' actor s ≡ ok (s', r)
    → (between : Depot) × Posted data'.from_tank_id s between × Posted data'.to_tank_id between s'
transfer-Posted labels name data' actor s s' r e =
    let (src, dst, from, to, (differ, done)) = transfer-Moved labels name data' actor s s' r e in
    let src' : FuelTank = record src { current_volume = src.current_volume -ℤ data'.volume } in
    let out = outgoing name data' actor src in
    (
      append (out ∷ []) (set_tank data'.from_tank_id src' s),
      record {
        old = src;
        new = src';
        row = out;
        found = from;
        stored = refl;
        logged = refl;
        names = refl;
        moved = omega int_laws;
      },
      record {
        old = dst;
        new = record dst { current_volume = dst.current_volume +ℤ data'.volume };
        row = incoming name data' actor dst;
        found = lookup-put_ne data'.from_tank_id data'.to_tank_id src' s.tanks differ ∙ to;
        stored = ap (λ (d : Depot). d.tanks) done;
        logged = ap (λ (d : Depot). d.journal) done ∙ sym (append_assoc s.journal (out ∷ []) _);
        names = refl;
        moved = refl;
      },
    )

-- The fuel in all tanks.
abbrev pub total_volume : Depot → ℤ
total_volume s = sum_rows (λ (t : FuelTank). t.current_volume) s.tanks

-- A posting changes the total by the signed volume of its row.
pub total_volume-Posted :
    (k : ℕ) (s s' : Depot) (p : Posted k s s')
    → total_volume s' ≡ total_volume s +ℤ signed p.row.kind p.row.volume
total_volume-Posted k s s' p =
    let change = sum_rows-put (λ (t : FuelTank). t.current_volume) k p.new s.tanks p.found in
    rw p.stored (grind (int_laws, change, p.moved))

-- A transfer leaves the fuel in all tanks together, whatever the two tanks hold.
pub transfer_conserves :
    (labels : Labels) (name : Option Text) (data' : TankTransfer) (actor : TokenUser) (s s' : Depot)
    (r : List TankResponse)
    → transfer labels name data' actor s ≡ ok (s', r)
    → total_volume s' ≡ total_volume s
unfolding transfer-Posted
transfer_conserves labels name data' actor s s' r e =
    let (between, out, in_) = transfer-Posted labels name data' actor s s' r e in
    rw
      (
        total_volume-Posted data'.to_tank_id between s' in_,
        total_volume-Posted data'.from_tank_id s between out,
      )
      (omega int_laws)
