-- ===== src/Control/Bench.antt =====
-- What a write path works on: the switch, by what it was sent, and the tables of backups and
-- interfaces in the database.
use netbuddy.Base.{ℕ, Text, List, Option, Action}
use netbuddy.Hardware.{Op}

pub record ConfigBackup : Type 0 where
  pub device_id : ℕ
  pub content : Text
  pub sha256 : Text

pub record InterfaceRow : Type 0 where
  pub device_id : ℕ
  pub name : Text
  pub vlan_id : Option ℕ

-- The backups stand in the order of `created_at`, newest last.
pub record Bench : Type 0 where
  pub ops : List Op
  pub backups : List ConfigBackup
  pub interfaces : List InterfaceRow

-- A call of the switch inside a write path.
abbrev pub on_switch : {A : Type 0} → Action (List Op) A → Action Bench A
on_switch m s = let (r, ops) = m s.ops in (r, record s { ops = ops })
