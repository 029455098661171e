-- ===== src/Unifi.antt =====
-- Local controllers of UniFi switches and access points
-- (backend/src/netbuddy/services/unifi_local.py). The wattage of a port is left out: no code of
-- the backend reads it.
pub mod Raw
pub mod Console
pub mod Clients
pub mod Ports
pub mod Assigned
pub mod Provisioned
pub mod Ran
pub mod Import
pub mod Tables
pub mod Done
pub mod Imported
mod Tests
mod ImportTests
use netbuddy.Base.{ℕ, Text, text, Bool, List, [], ◌∷◌, Option}

-- The consoles of the sites, by their addresses.
abbrev pub consoles : List (Text × Text)
consoles =
    (text "Sulgen", text "10.120.12.253")
    ∷ (text "Grosuplje", text "10.121.12.253")
    ∷ (text "USA", text "10.120.12.250")
    ∷ (text "Cusano", text "10.123.12.253")
    ∷ []

pub record UnifiSwitchPort : Type 0 where
  pub port_idx : ℕ
  pub name : Option Text
  pub poe_enable : Bool
  pub poe_good : Bool
  pub up : Bool

pub record UnifiDevice : Type 0 where
  pub site : Text
  pub mac : Text
  pub name : Option Text
  pub model : Option Text
  pub ip : Option Text
  pub type : Text
  pub uplink_type : Option Text
  pub uplink_mac : Option Text
  pub poe_ports : List UnifiSwitchPort
