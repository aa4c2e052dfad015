-- ===== src/Tanks/Access.antt =====
-- Who may run the operations of tank_service.py, and what a tank with a history is kept from.
use balt_oil.Tanks.Postings.{record_issue-Posted}
use balt_oil.Tanks.Journal.{Accounted, Posted, balance, balance-append}
use balt_oil.Tanks.Ops.{
  adjust_tank, create_tank, delete_tank, record_issue, update_tank, entry, is_real, note_or,
}
use balt_oil.Tanks.Defs.{
  Depot, Labels, TankAdjust, TankCreate, TankIssue, TankTransaction, TankUpdate, FuelTank,
  TankResponse, adjust, correction,
}
use balt_oil.Service.{TokenUser, conflict, err, forbidden, is_admin, ok}
use balt_oil.Text.{Text}
use balt_oil.Table.{lookup, lookup-put_self, put}
use balt_oil.Prelude.Int.{abs, ltb_ℤ, pos, ℤ, ◌+ℤ◌, ◌-ℤ◌}
use balt_oil.Prelude.{
  Bool, List, Option, [], any, arith, false, true, ℕ, ◌++◌, ◌∷◌, ◌≡◌, ==_iff, ap, or_default, some,
  ◌&&◌, ◌==◌,
}

-- Whoever is not the administrator is refused by the operations that manage tanks, whatever the
-- request and the tables.
pub manage_forbidden :
    (k : ℕ) (labels : Labels) (name : Option Text) (actor : TokenUser) (s : Depot)
    (create : TankCreate) (update : TankUpdate) (correction' : TankAdjust)
    → is_admin actor.role ≡ false
    → (create_tank k labels name create actor s ≡ err forbidden)
      × (update_tank labels k update actor s ≡ err forbidden)
      × (delete_tank k actor s ≡ err forbidden)
      × (adjust_tank labels name k correction' actor s ≡ err forbidden)
unfolding create_tank update_tank delete_tank adjust_tank
manage_forbidden k labels name actor s create update correction' h = ground arith

any-append :
    (p : TankTransaction → Bool) (xs : List TankTransaction) (x : TankTransaction)
    → p x ≡ true
    → any p (xs ++ (x ∷ [])) ≡ true
any-append p [] x h = ground arith
any-append p (y ∷ xs) x h = ground (arith, any-append p xs x h)

-- After a posting of a real operation the tank is kept.
delete_tank-Posted :
    (k : ℕ) (admin' : TokenUser) (s s' : Depot) (p : Posted k s s')
    → is_real p.row.kind ≡ true
    → is_admin admin'.role ≡ true
    → delete_tank k admin' s' ≡ err conflict
unfolding delete_tank
delete_tank-Posted k admin' s s' p real h =
    let here : lookup k s'.tanks ≡ some p.new = rw p.stored (lookup-put_self k p.new s.tanks) in
    let history : any (λ (tx : TankTransaction). (tx.tank_id == k) && is_real tx.kind) s'.journal
        ≡ true =
      rw p.logged (
        any-append (λ (tx : TankTransaction). (tx.tank_id == k) && is_real tx.kind) s.journal p.row
          (ground (arith, p.names))) in
    ground (arith, here, history)

-- A tank that has issued fuel can be deleted by nobody: an administrator gets a conflict.
pub delete_tank-record_issue :
    (name : Option Text) (k : ℕ) (data' : TankIssue) (driver' admin' : TokenUser) (s s' : Depot)
    (tx : TankTransaction)
    → record_issue name k data' driver' s ≡ ok (s', tx)
    → is_admin admin'.role ≡ true
    → delete_tank k admin' s' ≡ err conflict
delete_tank-record_issue name k data' driver' admin' s s' tx e h =
    let (posted, kind) = record_issue-Posted name k data' driver' s s' tx e in
    delete_tank-Posted k admin' s s' posted (ap is_real kind) h

-- A correction that lowers a volume is written down as if it raised it: the journal then no longer
-- accounts for the tank.
pub adjust_tank_lowering :
    (labels : Labels) (name : Option Text) (k : ℕ) (data' : TankAdjust) (actor : TokenUser)
    (s s' : Depot) (r : TankResponse) (t : FuelTank) (v : ℤ)
    → adjust_tank labels name k data' actor s ≡ ok (s', r)
    → Accounted s
    → lookup k s.tanks ≡ some t
    → data'.volume ≡ some v
    → ltb_ℤ v t.current_volume ≡ true
    → ¬ Accounted s'
unfolding adjust_tank ◌+ℤ◌ ◌-ℤ◌
adjust_tank_lowering labels name k data' actor s s' r t v e acc found set lower acc' =
    let new : FuelTank = record t {
      current_volume = v;
      counter = or_default data'.counter t.counter;
    } in
    let row =
      entry k adjust (pos (abs (v -ℤ t.current_volume))) t.counter
        (or_default data'.counter t.counter) actor name
        (some (note_or data'.notes (correction (v -ℤ t.current_volume)))) in
    let stored : s'.tanks ≡ put k new s.tanks = ground arith in
    let logged : s'.journal ≡ s.journal ++ (row ∷ []) = ground arith in
    let after = acc' k new (rw stored (lookup-put_self k new s.tanks)) in
    ground (
      arith,
      acc k t found,
      after,
      ap (balance k) logged,
      balance-append k s.journal (row ∷ []),
      ==_iff k k,
    )
