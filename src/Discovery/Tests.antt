-- ===== src/Discovery/Tests.antt =====
-- A run on a small switch, and the theorems at it.
use netbuddy.Discovery.Snapshot.{persist_interface_snapshot-interfaces}
use netbuddy.Discovery.Vlans.{KeepsVlans, run_discovery-vlans}
use netbuddy.Discovery.Scheduled.{
  Schedule, run_scheduled_discovery, run_scheduled_discovery-counted,
}
use netbuddy.Base.{
  ℕ, Result, ◌+◌, subst, ok_injective, ◌<◌, Text, text, ◌≡◌, ◌↔◌, refl, Bool, true, false, List, [],
  ◌∷◌, ◌++◌, arith, length, none, some, ok, raised, Exception, All, nat_eq, list_eq, inl,
}
use netbuddy.Inventory.{Device, switch, Credential, DeviceCredential, ssh}
use netbuddy.Discovery.Rows.{
  admin_up, oper_up, InterfaceData, success, partial, failed, LldpNeighborData, LldpNeighbor,
  VpnTunnelData, VpnTunnel, Adapter, DiscoveryRun,
}
use netbuddy.Discovery.Tables.{Db, new_interface}
use netbuddy.Discovery.Vpn.{store_tunnels}
use netbuddy.Discovery.Run.{persist_interface_snapshot, reads, run_discovery}
use netbuddy.Discovery.Status.{failures, answered, last_run, run_discovery-status}
use netbuddy.Discovery.Keys.{InterfaceKey, keys_of, IsActive}
use netbuddy.Discovery.Grows.{HasDistinctNames}
use netbuddy.Discovery.Reads.{run_discovery-interfaces}
use netbuddy.Discovery.Neighbors.{AreAttached}
use netbuddy.Discovery.Lldp.{of_others, run_discovery-neighbors, run_discovery-neighbors_kept}
use netbuddy.Discovery.Tunnels.{relevance, or_true, store_tunnels-relevance}

abbrev device : Device
device = record {
  id = 1;
  site_id = none;
  hostname = text "sw";
  mgmt_ip = text "10.0.0.1";
  vendor = text "dell";
  model = none;
  os_version = none;
  serial_number = none;
  device_type = switch;
  adapter_id = text "dell_os6";
  enabled = true;
  last_seen = none;
  deleted = false;
}

abbrev tunnel : Text → Bool → VpnTunnel
tunnel name relevant = record {
  device_id = 1;
  name = name;
  remote_gateway = none;
  is_up = false;
  relevant = relevant;
  local_subnets = [];
  remote_subnets = [];
}

abbrev db : Db
db = record {
  device = device;
  interfaces = new_interface 4 2 (text "Gi1/0/1") ∷ new_interface 5 1 (text "Gi1/0/1") ∷ [];
  next_id = 9;
  cache = [];
  neighbors = [];
  mac_entries = [];
  arp_entries = [];
  tunnels = tunnel (text "partner") false ∷ tunnel (text "old") true ∷ [];
  runs = [];
}

abbrev neighbor : LldpNeighborData
neighbor = record {
  local_interface = text "GigabitEthernet1/0/1";
  remote_chassis_id = text "aabbccddee01";
  remote_port_id = text "eth0";
  remote_port_description = none;
  remote_system_name = none;
  remote_system_description = none;
  mgmt_address = none;
}

abbrev reported : VpnTunnelData
reported = record {
  name = text "partner";
  remote_gateway = none;
  is_up = true;
  local_subnets = [];
  remote_subnets = [];
}

abbrev timeout : Exception
timeout = record { type_name = text "TimeoutError"; message = text "" }

abbrev adapter : Adapter
adapter = record {
  can = λ c. true;
  system_info = ok (record {
    hostname = text "sw";
    vendor = text "dell";
    model = none;
    os_version = none;
    serial_number = none;
    device_type = switch;
  });
  interfaces = raised timeout;
  lldp_neighbors = ok (neighbor ∷ []);
  mac_table = ok [];
  arp = ok [];
  vpn_tunnels = ok (reported ∷ []);
}

abbrev silent : Adapter
silent = record adapter { can = λ c. false }

abbrev run : DiscoveryRun × Db
run = run_discovery 100 101 (text "manual") adapter db

run_discovery-status_example :
    (run.0.errors ≡ failures adapter reads)
    × ((run.0.status ≡ success) ↔ (length (failures adapter reads) ≡ 0))
    × ((run.0.status ≡ failed)
        ↔ ((0 < length (failures adapter reads)) × (answered adapter reads ≡ 0)))
    × ((run.0.status ≡ partial)
        ↔ ((0 < length (failures adapter reads)) × (0 < answered adapter reads)))
    × (last_run run.1.runs ≡ some run.0)
run_discovery-status_example = run_discovery-status 100 101 (text "manual") adapter db

db-HasDistinctNames : HasDistinctNames (keys_of db.interfaces)
db-HasDistinctNames = (((λ (kept, also_kept, same_device, same_name). omega arith), tt), (tt, tt))

run_discovery-interfaces_example :
    (added : List InterfaceKey) × (keys_of run.1.interfaces ≡ keys_of db.interfaces ++ added)
    × All (IsActive 1) added
    × HasDistinctNames (keys_of run.1.interfaces)
run_discovery-interfaces_example =
    run_discovery-interfaces 100 101 (text "manual") adapter db db-HasDistinctNames

run_discovery-neighbors_example :
    (rows : List LldpNeighbor) × (run.1.neighbors ≡ of_others 1 [] ++ rows)
    × AreAttached 1 (keys_of run.1.interfaces) (neighbor ∷ []) rows
run_discovery-neighbors_example =
    run_discovery-neighbors 100 101 (text "manual") adapter db (neighbor ∷ []) refl refl

run_discovery-neighbors_kept_example :
    (run_discovery 100 101 (text "manual") silent db).1.neighbors ≡ []
run_discovery-neighbors_kept_example =
    run_discovery-neighbors_kept 100 101 (text "manual") silent db (inl refl)

store_tunnels-relevance_example :
    relevance 1 (text "partner") (store_tunnels (reported ∷ []) db).tunnels
    ≡ some (or_true (relevance 1 (text "partner") db.tunnels))
store_tunnels-relevance_example = store_tunnels-relevance (reported ∷ []) db (text "partner") refl

abbrev port : InterfaceData
port = record {
  name = text "gi1/0/1";
  if_index = none;
  description = none;
  admin_status = admin_up;
  oper_status = oper_up;
  mac_address = none;
  speed_mbps = some 1000;
  mtu = none;
  interface_type = none;
  parent_name = none;
  vlan_id = none;
}

abbrev talkative : Adapter
talkative = record adapter { interfaces = ok (port ∷ []) }

run_discovery-vlans_example :
    KeepsVlans db.interfaces (run_discovery 100 101 (text "manual") talkative db).1.interfaces
run_discovery-vlans_example =
    run_discovery-vlans 100 101 (text "manual") talkative db
      (λ reported e. subst (All (λ d. d.vlan_id ≡ none)) (ok_injective e) (refl, tt))

abbrev credential : Credential
credential = record {
  id = 7;
  name = text "admin";
  base_url = none;
  api_token = none;
  deleted = false;
}

abbrev link : DeviceCredential
link = record { device_id = 1; credential_id = 7; protocol = ssh; deleted = false }

abbrev provider : Device → Credential → Result Adapter
provider d c = ok talkative

abbrev schedule : ℕ × Schedule
schedule = run_scheduled_discovery provider 100 (link ∷ []) (credential ∷ []) (device ∷ []) db

test_schedule : (schedule.0 ≡ 1) × (schedule.1.ok_hosts ≡ text "sw" ∷ [])
unfolding run_scheduled_discovery run_discovery
test_schedule = (refl, refl)

run_scheduled_discovery-counted_example :
    (length schedule.1.ok_hosts + length schedule.1.errors ≡ schedule.0)
    × ((added : List InterfaceKey) × (keys_of schedule.1.db.interfaces
          ≡ keys_of db.interfaces ++ added))
    × HasDistinctNames (keys_of schedule.1.db.interfaces)
run_scheduled_discovery-counted_example =
    run_scheduled_discovery-counted provider 100 (link ∷ []) (credential ∷ []) (device ∷ []) db
      db-HasDistinctNames

abbrev snapshot : DiscoveryRun × Db
snapshot = persist_interface_snapshot 100 101 (text "unifi") (port ∷ []) db

persist_interface_snapshot-interfaces_example :
    (snapshot.0.status ≡ success)
    × (snapshot.1.neighbors ≡ [])
    × ((added : List InterfaceKey) × (keys_of snapshot.1.interfaces
          ≡ keys_of db.interfaces ++ added)
        × All (IsActive 1) added)
    × HasDistinctNames (keys_of snapshot.1.interfaces)
persist_interface_snapshot-interfaces_example =
    persist_interface_snapshot-interfaces 100 101 (text "unifi") (port ∷ []) db db-HasDistinctNames
