-- ===== src/Discovery/Reads.antt =====
-- What the reads of a discovery do to the interfaces, and which leave the LLDP neighbours alone.
use netbuddy.Base.{
  ℕ, Text, ◌≡◌, refl, List, [], ◌∷◌, ◌++◌, All, Result, ok, raised, Bool-cases, inl, inr,
}
use netbuddy.Discovery.Rows.{
  Capability, read_system_info, read_interfaces, read_lldp, read_mac_table, read_arp,
  read_vpn_tunnels, Adapter, SystemInfo, LldpNeighborData, MacEntryData, ArpData, VpnTunnelData,
}
use netbuddy.Discovery.Keys.{InterfaceKey, keys_of, IsActive, interface_cache-IsReady}
use netbuddy.Discovery.Grows.{
  Grows, Grows-same, Grows-trans, get_or_create_interface-Grows, store_interfaces-Grows,
  HasDistinctNames,
}
use netbuddy.Discovery.Tables.{
  Db, get_or_create_interface, interface_cache, store_system_info, store_interfaces, add_neighbors,
  store_neighbors, neighbor_row, add_mac_entries, mac_row, store_mac_table, store_arp,
}
use netbuddy.Discovery.Vpn.{store_tunnels}
use netbuddy.Discovery.Run.{Errors, noted, read_with, read_all, run_discovery}

pub add_neighbors-Grows : (ns : List LldpNeighborData) (s : Db) → Grows s (add_neighbors ns s)
unfolding add_neighbors
add_neighbors-Grows [] s = Grows-same s s refl refl refl
add_neighbors-Grows (n ∷ more) s =
    let (id, s1) = get_or_create_interface n.local_interface s in
    let s2 : Db = record s1 { neighbors = s1.neighbors ++ neighbor_row s1.device.id id n ∷ [] } in
    Grows-trans (get_or_create_interface-Grows n.local_interface s).0
      (Grows-trans (Grows-same s1 s2 refl refl refl) (add_neighbors-Grows more s2))

add_mac_entries-Grows : (ms : List MacEntryData) (s : Db) → Grows s (add_mac_entries ms s)
unfolding add_mac_entries
add_mac_entries-Grows [] s = Grows-same s s refl refl refl
add_mac_entries-Grows (m ∷ more) s =
    let (id, s1) = get_or_create_interface m.interface s in
    let s2 : Db = record s1 { mac_entries = s1.mac_entries ++ mac_row s1.device.id id m ∷ [] } in
    Grows-trans (get_or_create_interface-Grows m.interface s).0
      (Grows-trans (Grows-same s1 s2 refl refl refl) (add_mac_entries-Grows more s2))

store_system_info-Grows :
    (now : ℕ) (info : SystemInfo) (s : Db) → Grows s (store_system_info now info s)
unfolding store_system_info
store_system_info-Grows now info s = Grows-same s _ refl refl refl

pub store_neighbors-Grows : (ns : List LldpNeighborData) (s : Db) → Grows s (store_neighbors ns s)
unfolding store_neighbors
store_neighbors-Grows ns s = Grows-trans (Grows-same s _ refl refl refl) (add_neighbors-Grows ns _)

store_mac_table-Grows : (ms : List MacEntryData) (s : Db) → Grows s (store_mac_table ms s)
unfolding store_mac_table
store_mac_table-Grows ms s =
    Grows-trans (Grows-same s _ refl refl refl) (add_mac_entries-Grows ms _)

store_arp-Grows : (rows : List ArpData) (s : Db) → Grows s (store_arp rows s)
unfolding store_arp
store_arp-Grows rows s = Grows-same s _ refl refl refl

store_tunnels-Grows : (ts : List VpnTunnelData) (s : Db) → Grows s (store_tunnels ts s)
unfolding store_tunnels
store_tunnels-Grows ts s = Grows-same s _ refl refl refl

-- What holds between the state before and after each store that takes place holds of the read.
module _ (R : Db → Db → Type 0) (R-refl : (s : Db) → R s s) where
  noted-keeps :
      {A : Type 0} (c : Capability) (answer : Result A) (store : A → Db → Db) (p : Db × Errors)
      → ((a : A) → answer ≡ ok a → (s : Db) → R s (store a s))
      → R p.0 (noted c answer store p).0
  noted-keeps c (ok a) store (s, errors) h = h a refl s
  noted-keeps c (raised e) store (s, errors) h = R-refl s

  pub read_with-keeps :
      {A : Type 0} (adapter : Adapter) (c : Capability) (answer : Result A) (store : A → Db → Db)
      (p : Db × Errors)
      → ((a : A) → answer ≡ ok a → (s : Db) → R s (store a s))
      → R p.0 (read_with adapter c answer store p).0
  unfolding read_with
  read_with-keeps adapter c answer store p h = elim (Bool-cases (adapter.can c)) [
    | inl can ↦ rw can (noted-keeps c answer store p h)
    | inr cannot ↦ rw cannot (R-refl p.0)
  ]

read_with-Grows :
    {A : Type 0} (adapter : Adapter) (c : Capability) (answer : Result A) (store : A → Db → Db)
    (p : Db × Errors)
    → ((a : A) (s : Db) → Grows s (store a s))
    → Grows p.0 (read_with adapter c answer store p).0
read_with-Grows adapter c answer store p h =
    read_with-keeps Grows (λ s. Grows-same s s refl refl refl) adapter c answer store p
      (λ a e s. h a s)

-- The two reads before the neighbours, and the three after.
module _ (now : ℕ) (adapter : Adapter) where
  abbrev pub before_lldp : Db → Db × Errors
  before_lldp s =
      read_with adapter read_interfaces adapter.interfaces (store_interfaces now)
        (read_with adapter read_system_info adapter.system_info (store_system_info now) (s, []))

  abbrev pub after_lldp : Db × Errors → Db × Errors
  after_lldp p = read_with adapter read_vpn_tunnels adapter.vpn_tunnels store_tunnels (
      read_with adapter read_arp adapter.arp store_arp
        (read_with adapter read_mac_table adapter.mac_table store_mac_table p))

  pub before_lldp-Grows : (s : Db) → Grows s (before_lldp s).0
  before_lldp-Grows s =
      Grows-trans
        (read_with-Grows adapter read_system_info adapter.system_info (store_system_info now)
          (s, []) (store_system_info-Grows now))
        (read_with-Grows adapter read_interfaces adapter.interfaces (store_interfaces now) _
          (store_interfaces-Grows now))

  pub after_lldp-Grows : (p : Db × Errors) → Grows p.0 (after_lldp p).0
  after_lldp-Grows p =
      Grows-trans
        (Grows-trans
          (read_with-Grows adapter read_mac_table adapter.mac_table store_mac_table p
            store_mac_table-Grows)
          (read_with-Grows adapter read_arp adapter.arp store_arp _ store_arp-Grows))
        (read_with-Grows adapter read_vpn_tunnels adapter.vpn_tunnels store_tunnels _
          store_tunnels-Grows)

  read_all-Grows : (s : Db) → Grows s (read_all now adapter s).0
  unfolding read_all
  read_all-Grows s = Grows-trans (before_lldp-Grows s) (
      Grows-trans
        (read_with-Grows adapter read_lldp adapter.lldp_neighbors store_neighbors (before_lldp s)
          store_neighbors-Grows)
        (after_lldp-Grows
          (read_with adapter read_lldp adapter.lldp_neighbors store_neighbors (before_lldp s))))

-- A run leaves the identifier, the device, the name and the deletion of every interface as they
-- are, adds active ones of its own device behind them, and, where no two active interfaces of one
-- device have the same name, keeps it so: the unique index allows every flush.
pub run_discovery-interfaces :
    (now finished : ℕ) (triggered_by : Text) (adapter : Adapter) (s : Db)
    → HasDistinctNames (keys_of s.interfaces)
    → (let after = (run_discovery now finished triggered_by adapter s).1 in
        (added : List InterfaceKey) × (keys_of after.interfaces ≡ keys_of s.interfaces ++ added)
        × All (IsActive s.device.id) added
        × HasDistinctNames (keys_of after.interfaces))
unfolding run_discovery
run_discovery-interfaces now finished triggered_by adapter s distinct =
    let grows =
      read_all-Grows now adapter (record s { cache = interface_cache s.device.id s.interfaces }) in
    (
      grows.added,
      grows.rows,
      grows.each,
      grows.distinct (interface_cache-IsReady s.device.id s.interfaces) distinct,
    )
