-- ===== src/Discovery/Neighbors.antt =====
-- The LLDP neighbours that a discovery stores.
use netbuddy.Base.{
  ℕ, Text, ◌≡◌, refl, sym, ◌∙◌, ap, subst, List, [], ◌∷◌, ◌++◌, append_assoc, append-nil, nat_eq,
  list_eq, Option, none, some,
}
use netbuddy.Base.Dict.{lookup}
use netbuddy.Ifname.{normalize_interface_name}
use netbuddy.Discovery.Rows.{InterfaceData, LldpNeighborData, LldpNeighbor, MacEntryData}
use netbuddy.Discovery.Keys.{InterfaceKey, keys_of, HasRow, HasRow-append}
use netbuddy.Discovery.Grows.{get_or_create_interface-Grows, IsReadyDb}
use netbuddy.Discovery.Reads.{add_neighbors-Grows}
use netbuddy.Discovery.Tables.{
  Db, fetched, get_or_create_interface, store_interfaces, add_neighbors, neighbor_row,
  add_mac_entries,
}

-- The row of the device has what was reported of the neighbour.
abbrev pub HasColumns : ℕ → LldpNeighborData → LldpNeighbor → Type 0
HasColumns device_id n r =
    (r.local_device_id ≡ device_id)
    × (r.remote_chassis_id ≡ n.remote_chassis_id)
    × (r.remote_port_id ≡ n.remote_port_id)
    × (r.remote_port_description ≡ n.remote_port_description)
    × (r.remote_system_name ≡ n.remote_system_name)
    × (r.remote_system_description ≡ n.remote_system_description)
    × (r.remote_mgmt_address ≡ n.mgmt_address)

-- The rows stand for the reported neighbours, in their order; each hangs on an interface of the
-- device whose name means the port that the neighbour was reported at.
abbrev pub AreAttached : ℕ → List InterfaceKey → List LldpNeighborData → List LldpNeighbor → Type 0
AreAttached device_id keys [] [] = Unit
AreAttached device_id keys (n ∷ ns) (r ∷ rows) =
    (HasRow device_id (normalize_interface_name n.local_interface) r.local_interface_id keys
      × HasColumns device_id n r)
    × AreAttached device_id keys ns rows
AreAttached device_id keys [] (r ∷ rows) = ⊥
AreAttached device_id keys (n ∷ ns) [] = ⊥

pub AreAttached-append :
    (device_id : ℕ) (keys added : List InterfaceKey) (ns : List LldpNeighborData)
    (rows : List LldpNeighbor)
    → AreAttached device_id keys ns rows
    → AreAttached device_id (keys ++ added) ns rows
AreAttached-append device_id keys added [] [] h = tt
AreAttached-append device_id keys added (n ∷ ns) (r ∷ rows) ((port, filled), h) = (
  (HasRow-append device_id _ r.local_interface_id keys added port, filled),
  AreAttached-append device_id keys added ns rows h,
)
AreAttached-append device_id keys added [] (r ∷ rows) h = absurd h
AreAttached-append device_id keys added (n ∷ ns) [] h = absurd h

fetched-neighbors :
    (name : Text) (s : Db) (known : Option ℕ) → (fetched name s known).1.neighbors ≡ s.neighbors
fetched-neighbors name s none = refl
fetched-neighbors name s (some id) = refl

get_or_create_interface-neighbors :
    (name : Text) (s : Db) → (get_or_create_interface name s).1.neighbors ≡ s.neighbors
unfolding get_or_create_interface
get_or_create_interface-neighbors name s =
    fetched-neighbors name s (lookup (normalize_interface_name name) s.cache)

pub store_interfaces-neighbors :
    (now : ℕ) (reported : List InterfaceData) (s : Db)
    → (store_interfaces now reported s).neighbors ≡ s.neighbors
unfolding store_interfaces
store_interfaces-neighbors now [] s = refl
store_interfaces-neighbors now (d ∷ more) s =
    store_interfaces-neighbors now more _ ∙ get_or_create_interface-neighbors d.name s

pub add_mac_entries-neighbors :
    (ms : List MacEntryData) (s : Db) → (add_mac_entries ms s).neighbors ≡ s.neighbors
unfolding add_mac_entries
add_mac_entries-neighbors [] s = refl
add_mac_entries-neighbors (m ∷ more) s =
    add_mac_entries-neighbors more _ ∙ get_or_create_interface-neighbors m.interface s

pub add_neighbors-AreAttached :
    (ns : List LldpNeighborData) (s : Db)
    → IsReadyDb s
    → (rows : List LldpNeighbor) × ((add_neighbors ns s).neighbors ≡ s.neighbors ++ rows)
      × AreAttached s.device.id (keys_of (add_neighbors ns s).interfaces) ns rows
unfolding add_neighbors
add_neighbors-AreAttached [] s ready = ([], sym (append-nil s.neighbors), tt)
add_neighbors-AreAttached (n ∷ more) s ready =
    let (id, s1) = get_or_create_interface n.local_interface s in
    let (grows, known) = get_or_create_interface-Grows n.local_interface s in
    let row = neighbor_row s1.device.id id n in
    let s2 : Db = record s1 { neighbors = s1.neighbors ++ row ∷ [] } in
    let later = add_neighbors-Grows more s2 in
    let ready1 = grows.ready ready in
    let key = normalize_interface_name n.local_interface in
    let (rows, stored, attached) = add_neighbors-AreAttached more s2 ready1 in
    (
      row ∷ rows,
      stored
          ∙ append_assoc s1.neighbors (row ∷ []) rows
          ∙ ap (λ l. l ++ row ∷ rows) (get_or_create_interface-neighbors n.local_interface s),
      subst
          (λ d. AreAttached d (keys_of (add_neighbors more s2).interfaces) (n ∷ more) (row ∷ rows))
          grows.device
          (
            (
              rw later.rows (
                  HasRow-append s1.device.id key id (keys_of s2.interfaces) later.added
                    (ready1.found key id known)),
              (refl, refl, refl, refl, refl, refl, refl),
            ),
            attached,
          ),
    )
