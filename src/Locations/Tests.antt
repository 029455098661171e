-- ===== src/Locations/Tests.antt =====
-- A switch that sees two access points at one port, a third one without power, and the theorems there.
use netbuddy.Base.{
  Text, text, true, false, count_if, List, [], ◌∷◌, none, some, is_some, or_else, ◌≡◌, refl, Result,
  ok, raised, map, All, upper_char, lower_char, nat_eq, list_eq, pair_eq,
}
use netbuddy.Base.Dict.{lookup}
use netbuddy.Inventory.{Device, switch}
use netbuddy.Discovery.Rows.{Interface, LldpNeighbor, MacAddressEntry, admin_up, oper_up, dynamic}
use netbuddy.Poe.Fleet.{port_to_ap}
use netbuddy.Unifi.{UnifiDevice}
use netbuddy.Locations.Cloud.{CloudDevice, ApMeta, norm_mac, unifi_aps}
use netbuddy.Locations.Switches.{Loc, Seen, joined, switch_locations}
use netbuddy.Locations.Local.{local_ap_index}
use netbuddy.Locations.Rows.{ApRow, new_row, ap_locations}
use netbuddy.Locations.Info.{ApLocationInfo, infos_of, sort_infos}
use netbuddy.Locations.Build.{Sources, aps_of, heuristic, place_of, build_ap_locations}
use netbuddy.Locations.Refines.{is_usw_mac, row_after, build_ap_locations-refines}
use netbuddy.Locations.Ports.{
  first_place, is_placed_at, switch_locations-lldp_first, is_meshed, place_of-meshed,
}
use netbuddy.Locations.Sticky.{build_ap_locations-sticky}

abbrev core : Device
core = record {
  id = 1;
  site_id = none;
  hostname = text "core";
  mgmt_ip = text "10.0.0.1";
  vendor = text "dell";
  model = none;
  os_version = none;
  serial_number = none;
  device_type = switch;
  adapter_id = text "dell_os6";
  enabled = true;
  last_seen = none;
  deleted = false;
}

abbrev port5 : Interface
port5 = record {
  id = 15;
  device_id = 1;
  name = text "Gi1/0/5";
  if_index = none;
  description = none;
  admin_status = admin_up;
  oper_status = oper_up;
  mac_address = none;
  speed_mbps = none;
  mtu = none;
  interface_type = none;
  parent_name = none;
  vlan_id = none;
  last_polled = none;
  deleted = false;
}

abbrev neighbor : Text → LldpNeighbor
neighbor chassis = record {
  local_device_id = 1;
  local_interface_id = 15;
  remote_chassis_id = chassis;
  remote_port_id = [];
  remote_port_description = none;
  remote_system_name = none;
  remote_system_description = none;
  remote_mgmt_address = none;
}

abbrev mac_entry : MacAddressEntry
mac_entry = record {
  device_id = 1;
  interface_id = 15;
  mac_address = text "00:00:00:00:00:02";
  vlan_id = none;
  entry_type = dynamic;
}

abbrev seen : Seen
seen = record {
  devices = core ∷ [];
  interfaces = port5 ∷ [];
  lldp = neighbor (text "00-00-00-00-00-01") ∷ [];
  mac_table = mac_entry ∷ [];
}

abbrev cloud_ap : Text → Text → CloudDevice
cloud_ap mac status = record {
  product_line = some (text "network");
  model = some (text "u6-lite");
  type = none;
  mac = some mac;
  name = some mac;
  status = some status;
  ip = none;
  ip_address = none;
}

abbrev controller_switch : UnifiDevice
controller_switch = record {
  site = text "Sulgen";
  mac = text "00:00:00:00:00:99";
  name = some (text "access");
  model = none;
  ip = some (text "10.0.0.9");
  type = text "usw";
  uplink_type = some (text "wire");
  uplink_mac = some (text "00:00:00:00:00:98");
  poe_ports = [];
}

abbrev sources : Sources
sources = record {
  seen = seen;
  local_devices = controller_switch ∷ [];
  groups =
      record {
        host_id = none;
        host_name = none;
        devices =
            cloud_ap (text "000000000001") (text "online")
            ∷ cloud_ap (text "000000000002") (text "online")
            ∷ cloud_ap (text "000000000003") (text "offline")
            ∷ [];
      }
      ∷ [];
  now = 50;
}

abbrev known_row : ApRow
known_row = record (new_row (text "000000000003")) {
  device_id = some 1;
  port = some (text "Gi1/0/7");
  located_at = some 20;
}

abbrev table : List (Text × ApRow)
table = (text "000000000003", known_row) ∷ []

abbrev meta : Text → Text → ApMeta
meta mac status = record { name = mac; status = status; model = text "u6-lite"; ip = [] }

abbrev at_port5 : Text → Loc
at_port5 source = record {
  device_id = 1;
  hostname = text "core";
  port = some (text "Gi1/0/5");
  source = source;
}

abbrev names_in : Result (List ApLocationInfo) → List Text
names_in (raised e) = []
names_in (ok infos) = map (λ i. i.ap_mac) infos

-- The access point without power comes first.
offline_first :
    names_in (build_ap_locations sources true table).0
    ≡ text "000000000003" ∷ text "000000000001" ∷ text "000000000002" ∷ []
unfolding build_ap_locations upper_char lower_char
offline_first = refl

-- A cloud device that is no access point is left out.
no_ap :
    unifi_aps (
      record {
        host_id = none;
        host_name = none;
        devices =
            record (cloud_ap (text "01") (text "online")) { model = some (text "USW-24") } ∷ [];
      }
      ∷ [])
    ≡ []
unfolding unifi_aps upper_char
no_ap = refl

apart : All (λ p. is_usw_mac sources.local_devices p.0 ≡ false) (aps_of sources)
unfolding aps_of norm_mac upper_char lower_char
apart = (refl, (refl, (refl, tt)))

build_ap_locations-refines_example :
    ((build_ap_locations sources true table).0
      ≡ ok (sort_infos (infos_of sources.seen.devices (place_of sources) table (aps_of sources))))
    × ((mac : Text)
        → is_usw_mac sources.local_devices mac ≡ false
        → lookup mac (build_ap_locations sources true table).1
          ≡ row_after sources.now
              (place_of sources)
              mac
              (lookup mac (aps_of sources))
              (lookup mac table))
build_ap_locations-refines_example = build_ap_locations-refines sources table apart

build_ap_locations-sticky_example :
    let after = (build_ap_locations sources true table).1 in
    ((after_row : ApRow) × (lookup (text "000000000003") after ≡ some after_row)
      × (after_row.device_id ≡ some 1)
      × (after_row.port ≡ some (text "Gi1/0/7"))
      × (after_row.located_at ≡ some 20)
      × (after_row.status ≡ text "offline"))
    × (is_some (lookup (1, text "Gi1/0/7") (port_to_ap [] (ap_locations after))) ≡ true)
unfolding aps_of place_of norm_mac upper_char lower_char
build_ap_locations-sticky_example =
    build_ap_locations-sticky sources table (text "000000000003")
      (meta (text "000000000003") (text "offline")) known_row 1 b'G' (text "i1/0/7") apart refl refl
      refl refl refl refl

place_of-meshed_example :
    ((place_of sources (text "000000000001") (meta (text "000000000001") (text "online"))).mesh
      ≡ is_meshed none
          (some (at_port5 (text "lldp")))
          (text "online")
          (λ key. count_if (is_placed_at sources key) (aps_of sources)))
    × ((place_of sources (text "000000000001") (meta (text "000000000001") (text "online"))).loc
        ≡ some (at_port5 (text "lldp")))
unfolding heuristic local_ap_index lower_char
place_of-meshed_example =
    place_of-meshed sources (text "000000000001") (meta (text "000000000001") (text "online"))

-- Two access points are behind that port, so both are meshed.
shared :
    (place_of sources (text "000000000002") (meta (text "000000000002") (text "online"))).mesh
    ≡ true
unfolding place_of aps_of upper_char lower_char
shared = refl

switch_locations-lldp_first_example :
    lookup (text "000000000002") (switch_locations seen).0
    ≡ or_else
        (first_place
          (λ n. norm_mac (some n.remote_chassis_id))
          (λ n. joined seen (text "lldp") n.local_device_id n.local_interface_id)
          (text "000000000002")
          seen.lldp)
        (first_place
          (λ e. norm_mac (some e.mac_address))
          (λ e. joined seen (text "mac") e.device_id e.interface_id)
          (text "000000000002")
          seen.mac_table)
switch_locations-lldp_first_example = switch_locations-lldp_first seen b'0' (text "00000000002")
