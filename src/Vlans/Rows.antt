-- ===== src/Vlans/Rows.antt =====
-- What a survey knows of one device (backend/src/netbuddy/services/vlan_survey.py).
use netbuddy.Base.{ℕ, Text, List, [], Option, none}

pub record SviInfo : Type 0 where
  pub vlan_id : ℕ
  pub ip : Option Text
  pub helpers : List Text

-- `to` is "internet", "lan", "vpn" or "vlan".
pub record VlanTransition : Type 0 where
  pub vlan_id : ℕ
  pub to : Text
  pub detail : Text
  pub policy : Text

pub data Kind : Type 0 where
  switch firewall unifi meraki : Kind

-- `vlans` and `access_ports` are dictionaries.
pub record DeviceVlanInfo : Type 0 where
  pub hostname : Text
  pub site : Option Text
  pub kind : Kind
  pub vlans : List (ℕ × Option Text)
  pub svis : List SviInfo
  pub access_ports : List (ℕ × ℕ)
  pub trunk_vlans : List ℕ
  pub dhcp_server_vlans : List ℕ
  pub transitions : List VlanTransition
  pub error : Option Text

abbrev pub new_info : Text → Option Text → Kind → DeviceVlanInfo
new_info hostname site kind = record {
  hostname = hostname;
  site = site;
  kind = kind;
  vlans = [];
  svis = [];
  access_ports = [];
  trunk_vlans = [];
  dhcp_server_vlans = [];
  transitions = [];
  error = none;
}

abbrev pub new_svi : ℕ → Option Text → SviInfo
new_svi vlan_id ip = record { vlan_id = vlan_id; ip = ip; helpers = [] }
