-- ===== src/Unifi/Raw.antt =====
-- The answers of a controller, by the fields that are read of them, and what is made of them
-- (`parse_device`, `parse_client` and `parse_network` of
-- backend/src/netbuddy/services/unifi_local.py). A field that is missing and one that is null are
-- the same; a field of another type than expected is not modelled.
use netbuddy.Base.{
  ℕ, Text, text, or_empty, Bool, List, [], ◌∷◌, Option, none, some, cons_some, if◌then◌else◌,
}
use netbuddy.Unifi.{UnifiSwitchPort, UnifiDevice}

-- A value in an override of a port; `other` stands for lists and objects.
pub data Json : Type 0 where
  null : Json
  boolean : Bool → Json
  number : ℕ → Json
  string : Text → Json
  other : ℕ → Json

abbrev pub Override : Type 0
Override = List (Text × Json)

pub record RawPort : Type 0 where
  pub port_idx : Option ℕ
  pub name : Option Text
  pub port_poe : Bool
  pub poe_enable : Bool
  pub poe_good : Bool
  pub up : Bool
  pub native_networkconf_id : Option Text
  pub media : Option Text
  pub speed : Option ℕ

pub record RawDevice : Type 0 where
  pub id : Option Text
  pub mac : Option Text
  pub name : Option Text
  pub model : Option Text
  pub ip : Option Text
  pub type : Option Text
  pub uplink_type : Option Text
  pub uplink_mac : Option Text
  pub port_table : List RawPort
  pub port_overrides : List Override

pub record RawClient : Type 0 where
  pub mac : Option Text
  pub hostname : Option Text
  pub name : Option Text
  pub ip : Option Text
  pub is_wired : Bool
  pub ap_mac : Option Text
  pub sw_mac : Option Text
  pub sw_port : Option ℕ
  pub oui : Option Text

pub record RawNetwork : Type 0 where
  pub id : Option Text
  pub name : Option Text
  pub purpose : Option Text
  pub vlan_enabled : Bool
  pub vlan : Option ℕ

pub record UnifiClient : Type 0 where
  pub site : Text
  pub mac : Text
  pub hostname : Option Text
  pub ip : Option Text
  pub is_wired : Bool
  pub ap_mac : Option Text
  pub sw_mac : Option Text
  pub sw_port : Option ℕ
  pub oui : Option Text

pub record UnifiNetwork : Type 0 where
  pub id : Text
  pub name : Text
  pub purpose : Option Text
  pub vlan_enabled : Bool
  pub vlan : Option ℕ

-- `str(value)`
abbrev pub str : Option Text → Text
str none = text "None"
str (some s) = s

abbrev poe_port : RawPort → Option ℕ → Option UnifiSwitchPort
poe_port p none = none
poe_port p (some idx) =
    if p.port_poe
    then some (record {
      port_idx = idx;
      name = p.name;
      poe_enable = p.poe_enable;
      poe_good = p.poe_good;
      up = p.up;
    })
    else none

abbrev poe_ports_of : List RawPort → List UnifiSwitchPort
poe_ports_of [] = []
poe_ports_of (p ∷ ports) = cons_some (poe_port p p.port_idx) (poe_ports_of ports)

unfoldable pub parse_device : RawDevice → Text → UnifiDevice
parse_device raw site = record {
  site = site;
  mac = or_empty raw.mac;
  name = raw.name;
  model = raw.model;
  ip = raw.ip;
  type = str raw.type;
  uplink_type = raw.uplink_type;
  uplink_mac = raw.uplink_mac;
  poe_ports = poe_ports_of raw.port_table;
}

-- `a or b`
abbrev or_text : Option Text → Option Text → Option Text
or_text (some (c ∷ s)) b = some (c ∷ s)
or_text _ b = b

unfoldable pub parse_client : RawClient → Text → UnifiClient
parse_client raw site = record {
  site = site;
  mac = or_empty raw.mac;
  hostname = or_text raw.hostname raw.name;
  ip = raw.ip;
  is_wired = raw.is_wired;
  ap_mac = raw.ap_mac;
  sw_mac = raw.sw_mac;
  sw_port = raw.sw_port;
  oui = raw.oui;
}

unfoldable pub parse_network : RawNetwork → UnifiNetwork
parse_network raw = record {
  id = or_empty raw.id;
  name = or_empty raw.name;
  purpose = raw.purpose;
  vlan_enabled = raw.vlan_enabled;
  vlan = raw.vlan;
}
