-- ===== src/Discovery/Tables.antt =====
-- The tables that a discovery of a device writes, and how each read is stored
-- (backend/src/netbuddy/services/discovery.py). A flush is taken to succeed.
use netbuddy.Base.{
  ℕ, suc, Text, Bool, false, not, ◌&&◌, List, [], ◌∷◌, ◌++◌, keep, Option, none, some, nat_eq,
  list_eq, ◌==◌, or_else, if◌then◌else◌,
}
use netbuddy.Base.Dict.{lookup, insert}
use netbuddy.Inventory.{Device}
use netbuddy.Ifname.{normalize_interface_name}
use netbuddy.Hosts.{normalize_mac}
use netbuddy.Discovery.Rows.{
  admin_unknown, oper_unknown, SystemInfo, InterfaceData, LldpNeighborData, MacEntryData, ArpData,
  Interface, LldpNeighbor, MacAddressEntry, ArpEntry, VpnTunnel, DiscoveryRun,
}

-- The tables, the object of the device that is read, and the cache of its interfaces: the
-- identifier of each by its normalised name. `next_id` is an identifier that no row has.
pub record Db : Type 0 where
  pub device : Device
  pub interfaces : List Interface
  pub next_id : ℕ
  pub cache : List (Text × ℕ)
  pub neighbors : List LldpNeighbor
  pub mac_entries : List MacAddressEntry
  pub arp_entries : List ArpEntry
  pub tunnels : List VpnTunnel
  pub runs : List DiscoveryRun

abbrev pub is_active_at : ℕ → Interface → Bool
is_active_at device_id i = i.device_id == device_id && not i.deleted

unfoldable pub cache_from : List (Text × ℕ) → ℕ → List Interface → List (Text × ℕ)
cache_from cache device_id [] = cache
cache_from cache device_id (i ∷ rows) =
    cache_from
      (if is_active_at device_id i
        then insert (normalize_interface_name i.name) i.id cache
        else cache)
      device_id rows

abbrev pub interface_cache : ℕ → List Interface → List (Text × ℕ)
interface_cache device_id rows = cache_from [] device_id rows

abbrev pub new_interface : (id device_id : ℕ) → Text → Interface
new_interface id device_id name = record {
  id = id;
  device_id = device_id;
  name = name;
  if_index = none;
  description = none;
  admin_status = admin_unknown;
  oper_status = oper_unknown;
  mac_address = none;
  speed_mbps = none;
  mtu = none;
  interface_type = none;
  parent_name = none;
  vlan_id = none;
  last_polled = none;
  deleted = false;
}

abbrev pub create_interface : Text → Db → ℕ × Db
create_interface name s = (
  s.next_id,
  record s {
    interfaces = s.interfaces ++ new_interface s.next_id s.device.id name ∷ [];
    next_id = suc s.next_id;
    cache = insert (normalize_interface_name name) s.next_id s.cache;
  },
)

abbrev pub fetched : Text → Db → Option ℕ → ℕ × Db
fetched name s none = create_interface name s
fetched name s (some id) = (id, s)

unfoldable pub get_or_create_interface : Text → Db → ℕ × Db
get_or_create_interface name s = fetched name s (lookup (normalize_interface_name name) s.cache)

-- A VLAN is only written when the adapter knows one.
unfoldable pub apply_interface : InterfaceData → ℕ → Interface → Interface
apply_interface d now i = record i {
  if_index = d.if_index;
  description = d.description;
  admin_status = d.admin_status;
  oper_status = d.oper_status;
  mac_address = d.mac_address;
  speed_mbps = d.speed_mbps;
  mtu = d.mtu;
  interface_type = d.interface_type;
  parent_name = d.parent_name;
  vlan_id = or_else d.vlan_id i.vlan_id;
  last_polled = some now;
}

unfoldable pub update_interface : ℕ → (Interface → Interface) → List Interface → List Interface
update_interface id f [] = []
update_interface id f (i ∷ rows) = (if i.id == id then f i else i) ∷ update_interface id f rows

-- The loop over the interfaces that the device reports.
unfoldable pub store_interfaces : ℕ → List InterfaceData → Db → Db
unfolding get_or_create_interface update_interface
store_interfaces now [] s = s
store_interfaces now (d ∷ more) s =
    let (id, s1) = get_or_create_interface d.name s in
    store_interfaces now more
      (record s1 { interfaces = update_interface id (apply_interface d now) s1.interfaces })

-- `if info.model`: neither `None` nor empty.
abbrev pub or_old : Option Text → Option Text → Option Text
or_old (some (c ∷ s)) old = some (c ∷ s)
or_old _ old = old

unfoldable pub store_system_info : ℕ → SystemInfo → Db → Db
store_system_info now info s = record s {
  device = record s.device {
    model = or_old info.model s.device.model;
    os_version = or_old info.os_version s.device.os_version;
    serial_number = or_old info.serial_number s.device.serial_number;
    last_seen = some now;
  };
}

abbrev pub neighbor_row : ℕ → ℕ → LldpNeighborData → LldpNeighbor
neighbor_row device_id interface_id n = record {
  local_device_id = device_id;
  local_interface_id = interface_id;
  remote_chassis_id = n.remote_chassis_id;
  remote_port_id = n.remote_port_id;
  remote_port_description = n.remote_port_description;
  remote_system_name = n.remote_system_name;
  remote_system_description = n.remote_system_description;
  remote_mgmt_address = n.mgmt_address;
}

unfoldable pub add_neighbors : List LldpNeighborData → Db → Db
unfolding get_or_create_interface
add_neighbors [] s = s
add_neighbors (n ∷ more) s =
    let (id, s1) = get_or_create_interface n.local_interface s in
    add_neighbors more
      (record s1 { neighbors = s1.neighbors ++ neighbor_row s1.device.id id n ∷ [] })

-- The device's rows are deleted, and the new ones added.
unfoldable pub store_neighbors : List LldpNeighborData → Db → Db
unfolding add_neighbors
store_neighbors rows s =
    add_neighbors rows
      (record s { neighbors = keep (λ n. not (n.local_device_id == s.device.id)) s.neighbors })

abbrev pub mac_row : ℕ → ℕ → MacEntryData → MacAddressEntry
mac_row device_id interface_id m = record {
  device_id = device_id;
  interface_id = interface_id;
  mac_address = m.mac_address;
  vlan_id = m.vlan_id;
  entry_type = m.entry_type;
}

unfoldable pub add_mac_entries : List MacEntryData → Db → Db
unfolding get_or_create_interface
add_mac_entries [] s = s
add_mac_entries (m ∷ more) s =
    let (id, s1) = get_or_create_interface m.interface s in
    add_mac_entries more
      (record s1 { mac_entries = s1.mac_entries ++ mac_row s1.device.id id m ∷ [] })

unfoldable pub store_mac_table : List MacEntryData → Db → Db
unfolding add_mac_entries
store_mac_table rows s =
    add_mac_entries rows
      (record s { mac_entries = keep (λ m. not (m.device_id == s.device.id)) s.mac_entries })

-- An address that is no MAC address is passed over.
unfoldable pub arp_rows : ℕ → List ArpData → List ArpEntry
arp_rows device_id [] = []
arp_rows device_id (a ∷ more) = elim (normalize_mac a.mac_address) [
  | [] ↦ arp_rows device_id more
  | c ∷ s ↦
      record { device_id = device_id; ip_address = a.ip_address; mac = c ∷ s; vlan_id = a.vlan_id }
      ∷ arp_rows device_id more
]

unfoldable pub store_arp : List ArpData → Db → Db
unfolding arp_rows
store_arp rows s = record s {
  arp_entries =
      keep (λ a. not (a.device_id == s.device.id)) s.arp_entries ++ arp_rows s.device.id rows;
}
