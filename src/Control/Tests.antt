-- ===== src/Control/Tests.antt =====
-- A switch whose port Gi1/0/7 is put into VLAN 20, and the theorems of the write paths there.
use netbuddy.Base.{Text, text, Bool, true, false, [], ◌∷◌, none, some, Result, ok, list_eq}
use netbuddy.Profile.{LldpControlSpec, PortVlanControlSpec}
use netbuddy.Hardware.{Switch}
use netbuddy.Control.Bench.{Bench}
use netbuddy.Control.Backup.{store_backup}
use netbuddy.Control.PortVlan.{PortVlanResult, write_port_vlan}
use netbuddy.Control.PortVlan.Guarded.{Written, write_port_vlan-Written}
use netbuddy.Control.Lldp.{LldpEnableResult, enable_lldp}
use netbuddy.Control.Lldp.Guarded.{Enabled, enable_lldp-Enabled}

abbrev searches : Text → Text → Bool
searches pattern output = true

abbrev sha256 : Text → Text
sha256 content = content

abbrev port7 : Text
port7 = text "Gi1/0/7"

abbrev small_switch : Switch
small_switch = record {
  on_command = λ ops cmd. ok (text "switchport access vlan 20");
  on_config = λ ops lines. ok (text "ok");
  on_get_config = λ ops. ok (text "hostname sw");
  on_get_interfaces = λ ops. ok (
      record { name = port7; vlan_id = some 20 }
      ∷ record { name = text "Vlan1"; vlan_id = none }
      ∷ []);
}

abbrev vlan_spec : PortVlanControlSpec
vlan_spec = record {
  config_enter = text "configure" ∷ [];
  config_exit = text "end" ∷ [];
  interface_enter = text "interface {name}";
  interface_exit = text "exit";
  set_access = text "switchport access vlan {vlan}" ∷ [];
  reset_access = text "no switchport access vlan" ∷ [];
  save = text "write memory" ∷ [];
  save_marker = none;
  verify_command = none;
  verify_pattern = none;
}

abbrev lldp_spec : LldpControlSpec
lldp_spec = record {
  status_command = text "show lldp";
  enabled_marker = text "enabled";
  config_enter = text "configure" ∷ [];
  config_exit = text "end" ∷ [];
  enable_global = [];
  enable_interface = text "lldp transmit" ∷ [];
  interface_enter = text "interface {name}";
  interface_exit = text "exit";
  save = [];
}

abbrev bench : Bench
bench = record {
  ops = [];
  backups = [];
  interfaces = record { device_id = 1; name = port7; vlan_id = some 10 } ∷ [];
}

abbrev line : Text
line = text "switchport access vlan 20"

abbrev written : Result PortVlanResult × Bench
written = write_port_vlan searches small_switch vlan_spec sha256 1 port7 (line ∷ []) 20 false bench

write_port_vlan-Written_example :
    Written searches small_switch vlan_spec sha256 1 port7 (line ∷ []) 20 bench written.0 written.1
write_port_vlan-Written_example =
    write_port_vlan-Written searches small_switch vlan_spec sha256 1 port7 (line ∷ []) 20 false
      bench

abbrev enabled : Result LldpEnableResult × Bench
enabled = enable_lldp searches small_switch lldp_spec sha256 1 bench

enable_lldp-Enabled_example : Enabled small_switch lldp_spec sha256 1 bench enabled.0 enabled.1
enable_lldp-Enabled_example = enable_lldp-Enabled searches small_switch lldp_spec sha256 1 bench

abbrev content : Text
content = text "hostname sw"

abbrev stored : Bench
stored = (store_backup sha256 1 content bench).1
