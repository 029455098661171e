-- ===== src/Discovery/Run.antt =====
-- A run: the reads in their order, the errors and the status
-- (backend/src/netbuddy/services/discovery.py).
use netbuddy.Base.{
  ℕ, Text, List, [], ◌∷◌, ◌++◌, keep, length, some, leb, nat_eq, list_eq, if◌then◌else◌, Result, ok,
  raised, Exception,
}
use netbuddy.Discovery.Rows.{
  Capability, read_system_info, read_interfaces, read_lldp, read_mac_table, read_arp,
  read_vpn_tunnels, DiscoveryStatus, success, partial, failed, InterfaceData, Adapter, DiscoveryRun,
}
use netbuddy.Discovery.Tables.{
  interface_cache, store_interfaces, store_system_info, store_neighbors, store_mac_table, store_arp,
  Db,
}
use netbuddy.Discovery.Vpn.{store_tunnels}

-- One read: skipped without the capability, and an exception is noted.
abbrev pub Errors : Type 0
Errors = List (Capability × Exception)

abbrev pub noted : {A : Type 0} → Capability → Result A → (A → Db → Db) → Db × Errors → Db × Errors
noted c (ok a) store (s, errors) = (store a s, errors)
noted c (raised e) store (s, errors) = (s, errors ++ (c, e) ∷ [])

unfoldable pub read_with :
    {A : Type 0} (adapter : Adapter) (c : Capability)
    → Result A
    → (A → Db → Db)
    → Db × Errors
    → Db × Errors
read_with adapter c answer store p = if adapter.can c then noted c answer store p else p

abbrev pub reads : List Capability
reads =
    read_system_info ∷ read_interfaces ∷ read_lldp ∷ read_mac_table ∷ read_arp ∷ read_vpn_tunnels
    ∷ []

unfoldable pub read_all : ℕ → Adapter → Db → Db × Errors
unfolding read_with
read_all now adapter s =
    let p1 =
      read_with adapter read_system_info adapter.system_info (store_system_info now) (s, []) in
    let p2 = read_with adapter read_interfaces adapter.interfaces (store_interfaces now) p1 in
    let p3 = read_with adapter read_lldp adapter.lldp_neighbors store_neighbors p2 in
    let p4 = read_with adapter read_mac_table adapter.mac_table store_mac_table p3 in
    let p5 = read_with adapter read_arp adapter.arp store_arp p4 in
    read_with adapter read_vpn_tunnels adapter.vpn_tunnels store_tunnels p5

unfoldable pub status_of : Errors → (attempted : ℕ) → DiscoveryStatus
status_of [] attempted = success
status_of (e ∷ errors) attempted = if leb attempted (length (e ∷ errors)) then failed else partial

unfoldable pub run_discovery : (now finished : ℕ) → Text → Adapter → Db → DiscoveryRun × Db
unfolding read_all status_of
run_discovery now finished triggered_by adapter s =
    let (after, errors) =
      read_all now adapter (record s { cache = interface_cache s.device.id s.interfaces }) in
    let run : DiscoveryRun = record {
      triggered_by = triggered_by;
      seed_device = s.device.id;
      status = status_of errors (length (keep adapter.can reads));
      errors = errors;
      devices_found = 1;
      finished_at = some finished;
    } in
    (run, record after { runs = after.runs ++ run ∷ [] })

-- A list of interfaces that another component has read, such as a UniFi controller's.
unfoldable pub persist_interface_snapshot :
    (now finished : ℕ) → Text → List InterfaceData → Db → DiscoveryRun × Db
unfolding store_interfaces
persist_interface_snapshot now finished triggered_by interfaces s =
    let after =
      store_interfaces now interfaces
        (record s { cache = interface_cache s.device.id s.interfaces }) in
    let run : DiscoveryRun = record {
      triggered_by = triggered_by;
      seed_device = s.device.id;
      status = success;
      errors = [];
      devices_found = 1;
      finished_at = some finished;
    } in
    (
      run,
      record after {
        device = record after.device { last_seen = some now };
        runs = after.runs ++ run ∷ [];
      },
    )
