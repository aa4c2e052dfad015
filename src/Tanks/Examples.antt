-- ===== src/Tanks/Examples.antt =====
-- Tests of tank_service.py on a small depot, and the theorems at concrete inputs.
use balt_oil.Tanks.History.{Reach-Accounted, here, next, transferred}
use balt_oil.Tanks.Journal.{Accounted}
use balt_oil.Tanks.Ops.{
  adjust_tank, append, create_tank, entry, incoming, outgoing, record_issue, set_tank,
  tank_response, transfer,
}
use balt_oil.Tanks.Defs.{
  Depot, FuelTank, Labels, TankAdjust, TankIssue, TankResponse, TankTransaction, TankTransfer,
  adjust, arrival, correction, counter_delta, issue, TankCreate, TankUpdate,
}
use balt_oil.Service.{TokenUser, admin, driver, ok}
use balt_oil.Text.{codes}
use balt_oil.Prelude.Int.{negsuc, pos, ℤ, ◌+ℤ◌, ◌-ℤ◌}
use balt_oil.Prelude.{List, [], arith, false, none, refl, some, true, ℕ, ◌∷◌, ◌≡◌}
use balt_oil.Tanks.Transfers.{total_volume, transfer_conserves}

abbrev anna : TokenUser
anna = record { id = 7; role = admin }

abbrev ivan : TokenUser
ivan = record { id = 8; role = driver }

abbrev tank : ℤ → ℕ → FuelTank
tank volume counter' = record {
  name = codes "A";
  fuel_type = "diesel_summer";
  current_volume = volume;
  counter = counter';
  is_active = true;
}

abbrev catalog : Labels
catalog = ("diesel_summer", codes "DT") ∷ []

abbrev arrival_row : ℕ → ℤ → TankTransaction
arrival_row k volume = entry k arrival volume 0 0 ivan none none

-- Tank 1 holds 500 litres and its counter stands near the end; tank 2 holds 20.
abbrev depot : Depot
depot = record {
  tanks = (1, tank (pos 50_000) 999_990) ∷ (2, tank (pos 2_000) 5) ∷ [];
  journal = arrival_row 1 (pos 50_000) ∷ arrival_row 2 (pos 2_000) ∷ [];
}

abbrev reading : ℕ → TankIssue
reading n = record { counter_after = n; order_id = some 3; volume_hint = none; notes = none }

abbrev after_issue : Depot × TankTransaction
after_issue =
    let base = entry 1 issue (pos 3_000) 999_990 20 ivan none none in
    let row : TankTransaction = record base { order_id = some 3 } in
    (append (row ∷ []) (set_tank 1 (tank (pos 47_000) 20) depot), row)

-- The counter runs over: from 999990 to 20 are 30 litres.
issue_runs_over : record_issue none 1 (reading 20) ivan depot ≡ ok after_issue
unfolding record_issue counter_delta ◌-ℤ◌
issue_runs_over = refl

create_strips :
    create_tank 5 catalog none
      (record {
        name = codes " B ";
        fuel_type = "diesel_summer";
        initial_volume = pos 0;
        counter = 0;
      })
      anna
      depot
    ≡ ok (
      set_tank 5 (record (tank (pos 0) 0) { name = codes "B" }) depot,
      tank_response catalog 5 (record (tank (pos 0) 0) { name = codes "B" }),
    )
unfolding create_tank
create_strips = refl

abbrev pour : TankTransfer
pour = record { from_tank_id = 2; to_tank_id = 1; volume = pos 3_000; notes = none }

abbrev poured : Depot
poured =
    append
      (outgoing none pour ivan (tank (pos 2_000) 5)
        ∷ incoming none pour ivan (tank (pos 50_000) 999_990)
        ∷ [])
      (set_tank 1 (tank (pos 53_000) 999_990) (set_tank 2 (tank (negsuc 999) 5) depot))

abbrev pour_answer : List TankResponse
pour_answer =
    tank_response catalog 2 (tank (negsuc 999) 5)
    ∷ tank_response catalog 1 (tank (pos 53_000) 999_990)
    ∷ []

-- A transfer may take a tank below zero.
transfer_overdraws : transfer catalog none pour ivan depot ≡ ok (poured, pour_answer)
unfolding transfer ◌+ℤ◌ ◌-ℤ◌
transfer_overdraws = refl

abbrev lower : TankAdjust
lower = record { volume = some (pos 40_000); counter = none; notes = none }

abbrev lowered : Depot
lowered =
    append
      (entry 1 adjust (pos 10_000) 999_990 999_990 anna none (some (correction (negsuc 9_999)))
        ∷ [])
      (set_tank 1 (tank (pos 40_000) 999_990) depot)

depot-Accounted : Accounted depot
unfolding ◌+ℤ◌
depot-Accounted k t h = ground arith

transfer_conserves_example : total_volume poured ≡ total_volume depot
transfer_conserves_example =
    transfer_conserves catalog none pour ivan depot poured pour_answer transfer_overdraws

Reach-Accounted_example : Accounted poured
Reach-Accounted_example =
    Reach-Accounted depot-Accounted
      (next here (transferred catalog none pour ivan pour_answer transfer_overdraws)) (tt, tt)

abbrev second_tank : TankCreate
second_tank = record {
  name = codes " B ";
  fuel_type = "diesel_summer";
  initial_volume = pos 0;
  counter = 0;
}

abbrev hide : TankUpdate
hide = record { name = none; fuel_type = none; is_active = some false }

adjust_lowered :
    adjust_tank catalog none 1 lower anna depot
    ≡ ok (lowered, tank_response catalog 1 (tank (pos 40_000) 999_990))
unfolding adjust_tank ◌-ℤ◌
adjust_lowered = refl
