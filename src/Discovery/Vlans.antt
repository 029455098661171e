-- ===== src/Discovery/Vlans.antt =====
-- A discovery that knows no VLANs forgets none.
use netbuddy.Base.{
  ℕ, Text, ◌≡◌, refl, sym, ◌∙◌, ap, List, [], ◌∷◌, ◌++◌, map, append_assoc, append-nil, Option,
  none, some, nat_eq, list_eq, All, All-append, ok, Bool-cases, inl, inr, ◌==◌,
}
use mathlib.Core.List.{map-append}
use netbuddy.Base.Dict.{lookup}
use netbuddy.Ifname.{normalize_interface_name}
use netbuddy.Discovery.Rows.{
  read_system_info, read_interfaces, read_lldp, read_mac_table, read_arp, read_vpn_tunnels, Adapter,
  Interface, InterfaceData, LldpNeighborData, MacEntryData,
}
use netbuddy.Discovery.Tables.{
  Db, fetched, get_or_create_interface, apply_interface, update_interface, store_interfaces,
  store_system_info, add_neighbors, store_neighbors, add_mac_entries, store_mac_table, store_arp,
  interface_cache,
}
use netbuddy.Discovery.Vpn.{store_tunnels}
use netbuddy.Discovery.Run.{read_with, read_all, run_discovery}
use netbuddy.Discovery.Reads.{read_with-keeps}

abbrev pub vlans_of : List Interface → List (Option ℕ)
vlans_of rows = map (λ i. i.vlan_id) rows

-- The rows keep their VLANs, and what is added has none.
abbrev pub KeepsVlans : List Interface → List Interface → Type 0
KeepsVlans before after =
    (added : List (Option ℕ)) × (vlans_of after ≡ vlans_of before ++ added)
    × All (λ v. v ≡ none) added

KeepsVlans-refl : (rows : List Interface) → KeepsVlans rows rows
KeepsVlans-refl rows = ([], sym (append-nil (vlans_of rows)), tt)

KeepsVlans-trans : (a b c : List Interface) → KeepsVlans a b → KeepsVlans b c → KeepsVlans a c
KeepsVlans-trans a b c (x, ex, hx) (y, ey, hy) = (
  x ++ y,
  ey ∙ ap (λ l. l ++ y) ex ∙ append_assoc (vlans_of a) x y,
  All-append (λ v. v ≡ none) x y hx hy,
)

fetched-KeepsVlans :
    (name : Text) (s : Db) (known : Option ℕ)
    → KeepsVlans s.interfaces (fetched name s known).1.interfaces
fetched-KeepsVlans name s none =
    (none ∷ [], map-append (λ (i : Interface). i.vlan_id) s.interfaces _, (refl, tt))
fetched-KeepsVlans name s (some id) = KeepsVlans-refl s.interfaces

get_or_create_interface-KeepsVlans :
    (name : Text) (s : Db) → KeepsVlans s.interfaces (get_or_create_interface name s).1.interfaces
unfolding get_or_create_interface
get_or_create_interface-KeepsVlans name s =
    fetched-KeepsVlans name s (lookup (normalize_interface_name name) s.cache)

update_interface-vlans :
    (id now : ℕ) (d : InterfaceData) (rows : List Interface)
    → d.vlan_id ≡ none
    → vlans_of (update_interface id (apply_interface d now) rows) ≡ vlans_of rows
unfolding update_interface apply_interface
update_interface-vlans id now d [] unknown = refl
update_interface-vlans id now d (i ∷ rows) unknown =
    let rest = update_interface-vlans id now d rows unknown in
    elim (Bool-cases (i.id == id)) [
      | inl same ↦ rw (same, unknown) (ap (λ l. i.vlan_id ∷ l) rest)
      | inr other ↦ rw other (ap (λ l. i.vlan_id ∷ l) rest)
    ]

store_interfaces-KeepsVlans :
    (now : ℕ) (reported : List InterfaceData) (s : Db)
    → All (λ d. d.vlan_id ≡ none) reported
    → KeepsVlans s.interfaces (store_interfaces now reported s).interfaces
unfolding store_interfaces
store_interfaces-KeepsVlans now [] s unknown = KeepsVlans-refl s.interfaces
store_interfaces-KeepsVlans now (d ∷ more) s (first, unknown) =
    let (id, s1) = get_or_create_interface d.name s in
    let s2 : Db = record s1 {
      interfaces = update_interface id (apply_interface d now) s1.interfaces;
    } in
    KeepsVlans-trans s.interfaces s1.interfaces _ (get_or_create_interface-KeepsVlans d.name s) (
      KeepsVlans-trans s1.interfaces s2.interfaces _
        (
          [],
          update_interface-vlans id now d s1.interfaces first
              ∙ sym (append-nil (vlans_of s1.interfaces)),
          tt,
        )
        (store_interfaces-KeepsVlans now more s2 unknown))

add_neighbors-KeepsVlans :
    (ns : List LldpNeighborData) (s : Db) → KeepsVlans s.interfaces (add_neighbors ns s).interfaces
unfolding add_neighbors
add_neighbors-KeepsVlans [] s = KeepsVlans-refl s.interfaces
add_neighbors-KeepsVlans (n ∷ more) s =
    KeepsVlans-trans s.interfaces (get_or_create_interface n.local_interface s).1.interfaces _
      (get_or_create_interface-KeepsVlans n.local_interface s) (add_neighbors-KeepsVlans more _)

add_mac_entries-KeepsVlans :
    (ms : List MacEntryData) (s : Db) → KeepsVlans s.interfaces (add_mac_entries ms s).interfaces
unfolding add_mac_entries
add_mac_entries-KeepsVlans [] s = KeepsVlans-refl s.interfaces
add_mac_entries-KeepsVlans (m ∷ more) s =
    KeepsVlans-trans s.interfaces (get_or_create_interface m.interface s).1.interfaces _
      (get_or_create_interface-KeepsVlans m.interface s) (add_mac_entries-KeepsVlans more _)

-- A run whose adapter reports no VLAN of any interface keeps the VLAN of each interface that there
-- was, such as one that was assigned to a port, and the interfaces that it adds have none.
pub run_discovery-vlans :
    (now finished : ℕ) (triggered_by : Text) (adapter : Adapter) (s : Db)
    → ((reported : List InterfaceData)
        → adapter.interfaces ≡ ok reported
        → All (λ d. d.vlan_id ≡ none) reported)
    → KeepsVlans s.interfaces (run_discovery now finished triggered_by adapter s).1.interfaces
unfolding run_discovery read_all store_system_info store_neighbors store_mac_table store_arp
    store_tunnels
run_discovery-vlans now finished triggered_by adapter s unknown =
    let s0 : Db = record s { cache = interface_cache s.device.id s.interfaces } in
    let keeps : Db → Db → Type 0 = λ a b. KeepsVlans a.interfaces b.interfaces in
    let same : (a : Db) → KeepsVlans a.interfaces a.interfaces =
      λ a. KeepsVlans-refl a.interfaces in
    let p1 =
      read_with adapter read_system_info adapter.system_info (store_system_info now) (s0, []) in
    let p2 = read_with adapter read_interfaces adapter.interfaces (store_interfaces now) p1 in
    let p3 = read_with adapter read_lldp adapter.lldp_neighbors store_neighbors p2 in
    let p4 = read_with adapter read_mac_table adapter.mac_table store_mac_table p3 in
    let p5 = read_with adapter read_arp adapter.arp store_arp p4 in
    KeepsVlans-trans s.interfaces p5.0.interfaces _
      (KeepsVlans-trans s.interfaces p4.0.interfaces p5.0.interfaces
        (KeepsVlans-trans s.interfaces p3.0.interfaces p4.0.interfaces
          (KeepsVlans-trans s.interfaces p2.0.interfaces p3.0.interfaces
            (KeepsVlans-trans s.interfaces p1.0.interfaces p2.0.interfaces
              (read_with-keeps keeps same adapter read_system_info adapter.system_info
                (store_system_info now) (s0, []) (λ info e a. same a))
              (read_with-keeps keeps same adapter read_interfaces adapter.interfaces
                (store_interfaces now) p1
                (λ reported e a. store_interfaces-KeepsVlans now reported a (unknown reported e))))
            (read_with-keeps keeps same adapter read_lldp adapter.lldp_neighbors store_neighbors p2
              (λ ns e a. add_neighbors-KeepsVlans ns _)))
          (read_with-keeps keeps same adapter read_mac_table adapter.mac_table store_mac_table p3
            (λ ms e a. add_mac_entries-KeepsVlans ms _)))
        (read_with-keeps keeps same adapter read_arp adapter.arp store_arp p4 (λ rows e a. same a)))
      (read_with-keeps keeps same adapter read_vpn_tunnels adapter.vpn_tunnels store_tunnels p5
        (λ ts e a. same a))
