-- ===== src/Tanks/Defs.antt =====
-- Rows, requests and answers of the tank endpoints (app/models/fuel_tank.py, app/schemas/tank.py).
use balt_oil.Prelude.{ℕ, ◌+◌, ◌-◌, ◌*◌, Bool, String, Option, List, leb, if◌then◌else◌}
use balt_oil.Prelude.Int.{ℤ, pos}
use balt_oil.Table.{Table}
use balt_oil.Text.{Text}

abbrev pub counter_modulus : ℕ
counter_modulus = 1_000_000

pub data TankTxKind : Type 0 where
  arrival issue transfer_in transfer_out adjust expense : TankTxKind

-- The note of a journal row by the template that wrote it: the request's own text, a mismatch of
-- the counter's litres with the stated volume (alone or behind that text), the first balance, and
-- the text of a correction with its signed volume.
pub data Note : Type 0 where
  comment : Text → Note
  mismatch : ℕ → ℤ → Note
  comment_and_mismatch : Text → ℕ → ℤ → Note
  initial_balance : Note
  correction : ℤ → Note

pub record FuelTank : Type 0 where
  pub name : Text
  pub fuel_type : String
  pub current_volume : ℤ
  pub counter : ℕ
  pub is_active : Bool

pub record TankTransaction : Type 0 where
  pub tank_id : ℕ
  pub kind : TankTxKind
  pub volume : ℤ
  pub counter_before : ℕ
  pub counter_after : ℕ
  pub order_id : Option ℕ
  pub peer_tank_id : Option ℕ
  pub actor_id : ℕ
  pub actor_name : Option Text
  pub notes : Option Note

-- The two tables. The journal is append-only, newest row last.
pub record Depot : Type 0 where
  pub tanks : Table FuelTank
  pub journal : List TankTransaction

pub record TankCreate : Type 0 where
  pub name : Text
  pub fuel_type : String
  pub initial_volume : ℤ
  pub counter : ℕ

pub record TankUpdate : Type 0 where
  pub name : Option Text
  pub fuel_type : Option String
  pub is_active : Option Bool

pub record TankAdjust : Type 0 where
  pub volume : Option ℤ
  pub counter : Option ℕ
  pub notes : Option Text

pub record TankArrival : Type 0 where
  pub volume : ℤ
  pub notes : Option Text

pub record TankIssue : Type 0 where
  pub counter_after : ℕ
  pub order_id : Option ℕ
  pub volume_hint : Option ℤ
  pub notes : Option Text

pub record TankTransfer : Type 0 where
  pub from_tank_id : ℕ
  pub to_tank_id : ℕ
  pub volume : ℤ
  pub notes : Option Text

-- The labels of the fuel catalog: a code with its label.
abbrev pub Labels : Type 0
Labels = List (String × Text)

pub record TankResponse : Type 0 where
  pub id : ℕ
  pub name : Text
  pub fuel_type : String
  pub fuel_label : Option Text
  pub current_volume : ℤ
  pub counter : ℕ
  pub is_active : Bool

-- Litres by the counter in hundredths, as the volume that is written off.
abbrev pub litres : ℕ → ℤ
litres n = pos (100 * n)

-- `_counter_delta`: litres by the counter, through its overflow at 999999.
unfoldable pub counter_delta : ℕ → ℕ → ℕ
counter_delta before after =
    if leb before after then after - before else counter_modulus - before + after
