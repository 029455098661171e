-- ===== src/Vlans/Tests.antt =====
-- Configurations of several vendors, and the theorems at them.
use netbuddy.Base.{
  ℕ, ◌≤◌, ◌*◌, Text, text, lower_char, length, List, [], ◌∷◌, none, some, All, nat_eq, list_eq, ◌≡◌,
  refl, arith,
}
use netbuddy.Base.Dict.{HasDistinctKeys}
use netbuddy.Vlans.Range.{expand_vlan_list, count_ports}
use netbuddy.Vlans.Printed.{print_ranges, expand_vlan_list-print}
use netbuddy.Vlans.Bounds.{expand_vlan_list-bounds}
use netbuddy.Vlans.Rows.{SviInfo, DeviceVlanInfo, switch, new_info}
use netbuddy.Vlans.Patterns.{
  svi_line, interface_line, is_config_line, vlan_line, name_line, untagged_line, tagged_line,
  ip_line, relay_line, access_line, trunk_line,
}
use netbuddy.Vlans.Config.{parse_cli_config}
use netbuddy.Vlans.Consistent.{parse_cli_config-IsConsistent}
use netbuddy.Vlans.Defined.{IsConsistent}
use netbuddy.Vlans.Survey.{aggregate_survey, VlanEntry, add_devices}
use netbuddy.Vlans.Sums.{entry_at, site_entry, add_devices-refines}
use netbuddy.Vlans.Counted.{IsCounted, aggregate_survey-IsCounted}

huawei_list :
    expand_vlan_list (text " 2 TO 5, 90,101-103 x 5000 ")
    ≡ 2 ∷ 3 ∷ 4 ∷ 5 ∷ 90 ∷ 101 ∷ 102 ∷ 103 ∷ []
unfolding expand_vlan_list lower_char
huawei_list = refl

port_list : count_ports (text "1/1-1/5,2/3,Trk10") ≡ 7
unfolding count_ports
port_list = refl

abbrev config : Text
config =
    text
      "vlan 10\nname \"Office\"\n!\ninterface vlan 10\nip address 10.0.0.1 255.0.0.0\nip helper-address 10.0.0.9\n!\ninterface Gi1\nswitchport access vlan 10\ninterface Gi2\nswitchport trunk allowed vlan add 10,20-21\nexit\nvlan 30\nuntagged 1/1-1/4\ntagged Trk1\n"

abbrev office_svi : SviInfo
office_svi = record { vlan_id = 10; ip = some (text "10.0.0.1"); helpers = text "10.0.0.9" ∷ [] }

parsed : parse_cli_config (text "sw") config ≡ record (new_info (text "sw") none switch) {
  vlans = (10, some (text "Office")) ∷ (20, none) ∷ (21, none) ∷ (30, none) ∷ [];
  svis = office_svi ∷ [];
  access_ports = (10, 1) ∷ (30, 4) ∷ [];
  trunk_vlans = 10 ∷ 20 ∷ 21 ∷ 30 ∷ [];
}
unfolding parse_cli_config svi_line lower_char interface_line is_config_line vlan_line name_line
    expand_vlan_list untagged_line tagged_line ip_line relay_line access_line trunk_line count_ports
parsed = refl

parse_cli_config-IsConsistent_example :
    IsConsistent
      (parse_cli_config (text "sw") (text "interface 1\nswitchport trunk allowed vlan 7,7,8\n"))
parse_cli_config-IsConsistent_example =
    parse_cli_config-IsConsistent (text "sw")
      (text "interface 1\nswitchport trunk allowed vlan 7,7,8\n")

expand_vlan_list-print_example :
    expand_vlan_list (print_ranges ((90, 90) ∷ (101, 103) ∷ [])) ≡ 90 ∷ 101 ∷ 102 ∷ 103 ∷ []
expand_vlan_list-print_example =
    expand_vlan_list-print ((90, 90) ∷ (101, 103) ∷ [])
      ((omega arith, omega arith, omega arith), ((omega arith, omega arith, omega arith), tt))

expand_vlan_list-bounds_example :
    All (λ v. (1 ≤ v) × (v ≤ 4094)) (expand_vlan_list (text "1-4094,4095"))
    × (length (expand_vlan_list (text "1-4094,4095")) ≤ 4095 * length (text "1-4094,4095"))
expand_vlan_list-bounds_example = expand_vlan_list-bounds (text "1-4094,4095")

abbrev office : Text → DeviceVlanInfo
office hostname = record (new_info hostname (some (text "Sulgen")) switch) {
  vlans = (10, some (text "Office")) ∷ (20, none) ∷ [];
  svis = office_svi ∷ [];
  access_ports = (10, 3) ∷ [];
  dhcp_server_vlans = 20 ∷ [];
}

abbrev devices : List DeviceVlanInfo
devices = office (text "sw1") ∷ office (text "sw2") ∷ []

abbrev counts_of : List (Text × List VlanEntry) → List (ℕ × (ℕ × List Text))
counts_of [] = []
counts_of ((site, []) ∷ sites) = counts_of sites
counts_of ((site, e ∷ entries) ∷ sites) =
    (e.vlan_id, (e.access_ports, e.carriers)) ∷ counts_of sites

six_ports :
    counts_of (aggregate_survey devices).sites ≡ (10, (6, text "sw1" ∷ text "sw2" ∷ [])) ∷ []
unfolding aggregate_survey
six_ports = refl

distinct : All (λ dev. HasDistinctKeys dev.vlans) devices
distinct = ((refl, (refl, tt)), ((refl, (refl, tt)), tt))

aggregate_survey-IsCounted_example :
    All (λ s. All (IsCounted devices s.0) s.1) (aggregate_survey devices).sites
aggregate_survey-IsCounted_example = aggregate_survey-IsCounted devices distinct

add_devices-refines_example :
    entry_at (text "Sulgen") 10 (add_devices devices [])
    ≡ site_entry (text "Sulgen") 10 devices (entry_at (text "Sulgen") 10 [])
add_devices-refines_example = add_devices-refines devices [] (text "Sulgen") 10 distinct
