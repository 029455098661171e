-- ===== src/Locations/Switches.antt =====
-- Where the switches see a MAC address or a name (`_switch_locations` of
-- backend/src/netbuddy/services/endpoint_location.py), from the tables that a discovery wrote.
use netbuddy.Base.{
  ℕ, Text, text, upper, or_empty, List, [], ◌∷◌, Option, none, some, nat_eq, list_eq, ◌==◌,
  if◌then◌else◌,
}
use netbuddy.Base.Dict.{setdefault}
use netbuddy.Inventory.{Device}
use netbuddy.Discovery.Rows.{Interface, LldpNeighbor, MacAddressEntry}
use netbuddy.Locations.Cloud.{norm_mac}

pub record Loc : Type 0 where
  pub device_id : ℕ
  pub hostname : Text
  pub port : Option Text
  pub source : Text

pub record Seen : Type 0 where
  pub devices : List Device
  pub interfaces : List Interface
  pub lldp : List LldpNeighbor
  pub mac_table : List MacAddressEntry

abbrev pub device_with : ℕ → List Device → Option Device
device_with id [] = none
device_with id (d ∷ devices) = if d.id == id then some d else device_with id devices

abbrev pub interface_with : ℕ → List Interface → Option Interface
interface_with id [] = none
interface_with id (i ∷ interfaces) = if i.id == id then some i else interface_with id interfaces

abbrev loc_at : Text → Option Device → Option Interface → Option Loc
loc_at source (some d) (some i) =
    some (record { device_id = d.id; hostname = d.hostname; port = some i.name; source = source })
loc_at source _ _ = none

-- A row joined with its device and its interface; without one of them it is not in the result.
unfoldable pub joined : Seen → Text → ℕ → ℕ → Option Loc
joined db source device_id interface_id =
    loc_at source (device_with device_id db.devices) (interface_with interface_id db.interfaces)

-- `if key: table.setdefault(key, loc)`
abbrev pub set_present : Text → Option Loc → List (Text × Loc) → List (Text × Loc)
set_present [] loc table = table
set_present (c ∷ s) none table = table
set_present (c ∷ s) (some loc) table = setdefault (c ∷ s) loc table

module _ (db : Seen) where
  unfoldable pub lldp_by_mac : List LldpNeighbor → List (Text × Loc) → List (Text × Loc)
  unfolding joined norm_mac
  lldp_by_mac [] table = table
  lldp_by_mac (n ∷ rows) table = lldp_by_mac rows (
      set_present (norm_mac (some n.remote_chassis_id))
        (joined db (text "lldp") n.local_device_id n.local_interface_id) table)

  unfoldable pub lldp_by_name : List LldpNeighbor → List (Text × Loc) → List (Text × Loc)
  unfolding joined
  lldp_by_name [] table = table
  lldp_by_name (n ∷ rows) table = lldp_by_name rows (
      set_present (upper (or_empty n.remote_system_name))
        (joined db (text "lldp") n.local_device_id n.local_interface_id) table)

  unfoldable pub macs_by_mac : List MacAddressEntry → List (Text × Loc) → List (Text × Loc)
  unfolding joined norm_mac
  macs_by_mac [] table = table
  macs_by_mac (e ∷ rows) table = macs_by_mac rows (
      set_present (norm_mac (some e.mac_address))
        (joined db (text "mac") e.device_id e.interface_id) table)

  -- `by_mac` and `by_name`. The loop over the LLDP rows fills both, neither of which it reads.
  unfoldable pub switch_locations : List (Text × Loc) × List (Text × Loc)
  unfolding lldp_by_mac lldp_by_name macs_by_mac
  switch_locations = (macs_by_mac db.mac_table (lldp_by_mac db.lldp []), lldp_by_name db.lldp [])
