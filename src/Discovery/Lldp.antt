-- ===== src/Discovery/Lldp.antt =====
-- A run replaces the LLDP neighbours of its device exactly when the device has reported some.
use netbuddy.Base.{
  ℕ, Text, ◌≡◌, refl, ◌∙◌, subst, true, false, not, List, [], ◌++◌, keep, nat_eq, ◌==◌, Result, ok,
  raised, Exception, Bool-cases, inl, inr, ◌⊎◌,
}
use netbuddy.Discovery.Rows.{
  Capability, read_system_info, read_interfaces, read_lldp, read_mac_table, read_arp,
  read_vpn_tunnels, Adapter, LldpNeighborData, LldpNeighbor, MacEntryData,
}
use netbuddy.Discovery.Keys.{keys_of, interface_cache-IsReady}
use netbuddy.Discovery.Grows.{IsReadyDb}
use netbuddy.Discovery.Reads.{
  read_with-keeps, before_lldp, after_lldp, before_lldp-Grows, after_lldp-Grows,
}
use netbuddy.Discovery.Neighbors.{
  AreAttached, AreAttached-append, store_interfaces-neighbors, add_mac_entries-neighbors,
  add_neighbors-AreAttached,
}
use netbuddy.Discovery.Tables.{
  Db, interface_cache, store_system_info, store_interfaces, store_neighbors, store_mac_table,
  store_arp,
}
use netbuddy.Discovery.Vpn.{store_tunnels}
use netbuddy.Discovery.Run.{Errors, read_with, read_all, run_discovery}

read_with-neighbors :
    {A : Type 0} (adapter : Adapter) (c : Capability) (answer : Result A) (store : A → Db → Db)
    (p : Db × Errors)
    → ((a : A) (s : Db) → (store a s).neighbors ≡ s.neighbors)
    → (read_with adapter c answer store p).0.neighbors ≡ p.0.neighbors
read_with-neighbors adapter c answer store p h =
    read_with-keeps (λ s t. t.neighbors ≡ s.neighbors) (λ s. refl) adapter c answer store p
      (λ a e s. h a s)

store_mac_table-neighbors :
    (ms : List MacEntryData) (s : Db) → (store_mac_table ms s).neighbors ≡ s.neighbors
unfolding store_mac_table
store_mac_table-neighbors ms s = add_mac_entries-neighbors ms _

module _ (now : ℕ) (adapter : Adapter) where
  before_lldp-neighbors : (s : Db) → (before_lldp now adapter s).0.neighbors ≡ s.neighbors
  unfolding store_system_info
  before_lldp-neighbors s =
      read_with-neighbors adapter read_interfaces adapter.interfaces (store_interfaces now) _
        (store_interfaces-neighbors now)
      ∙ read_with-neighbors adapter read_system_info adapter.system_info (store_system_info now)
          (s, []) (λ info t. refl)

  after_lldp-neighbors : (p : Db × Errors) → (after_lldp now adapter p).0.neighbors ≡ p.0.neighbors
  unfolding store_arp store_tunnels
  after_lldp-neighbors p =
      read_with-neighbors adapter read_vpn_tunnels adapter.vpn_tunnels store_tunnels _
        (λ ts t. refl)
      ∙ read_with-neighbors adapter read_arp adapter.arp store_arp _ (λ rows t. refl)
      ∙ read_with-neighbors adapter read_mac_table adapter.mac_table store_mac_table p
          store_mac_table-neighbors

-- The rows of other devices.
abbrev pub of_others : ℕ → List LldpNeighbor → List LldpNeighbor
of_others device_id rows = keep (λ n. not (n.local_device_id == device_id)) rows

store_neighbors-AreAttached :
    (ns : List LldpNeighborData) (s : Db)
    → IsReadyDb s
    → (rows : List LldpNeighbor) × ((store_neighbors ns s).neighbors
        ≡ of_others s.device.id s.neighbors ++ rows)
      × AreAttached s.device.id (keys_of (store_neighbors ns s).interfaces) ns rows
unfolding store_neighbors
store_neighbors-AreAttached ns s ready = add_neighbors-AreAttached ns _ ready

-- The read itself, in both cases.
stored_neighbors :
    (adapter : Adapter) (ns : List LldpNeighborData) (p : Db × Errors)
    → adapter.can read_lldp ≡ true
    → adapter.lldp_neighbors ≡ ok ns
    → IsReadyDb p.0
    → (let after = (read_with adapter read_lldp adapter.lldp_neighbors store_neighbors p).0 in
        (rows : List LldpNeighbor) × (after.neighbors
          ≡ of_others p.0.device.id p.0.neighbors ++ rows)
        × AreAttached p.0.device.id (keys_of after.interfaces) ns rows)
unfolding read_with
stored_neighbors adapter ns (s, errors) can answer ready =
    rw (can, answer) (store_neighbors-AreAttached ns s ready)

unread_neighbors :
    (adapter : Adapter) (p : Db × Errors)
    → (adapter.can read_lldp ≡ false) ⊎ ((e : Exception) × (adapter.lldp_neighbors ≡ raised e))
    → (read_with adapter read_lldp adapter.lldp_neighbors store_neighbors p).0.neighbors
      ≡ p.0.neighbors
unfolding read_with
unread_neighbors adapter p (inl cannot) = rw cannot refl
unread_neighbors adapter p (inr (e, fails)) = elim (Bool-cases (adapter.can read_lldp)) [
  | inl can ↦ rw (can, fails) refl
  | inr cannot ↦ rw cannot refl
]

-- After a run that has read LLDP neighbours, the neighbours are those of other devices as they
-- were, and one row for each reported neighbour, in their order, with its columns, on an active
-- interface of the device whose normalised name is that of the port it was reported at.
pub run_discovery-neighbors :
    (now finished : ℕ) (triggered_by : Text) (adapter : Adapter) (s : Db)
    (ns : List LldpNeighborData)
    → adapter.can read_lldp ≡ true
    → adapter.lldp_neighbors ≡ ok ns
    → (let after = (run_discovery now finished triggered_by adapter s).1 in
        (rows : List LldpNeighbor) × (after.neighbors ≡ of_others s.device.id s.neighbors ++ rows)
        × AreAttached s.device.id (keys_of after.interfaces) ns rows)
unfolding run_discovery read_all
run_discovery-neighbors now finished triggered_by adapter s ns can answer =
    let s0 : Db = record s { cache = interface_cache s.device.id s.interfaces } in
    let p2 = before_lldp now adapter s0 in
    let before = before_lldp-Grows now adapter s0 in
    let p3 = read_with adapter read_lldp adapter.lldp_neighbors store_neighbors p2 in
    let (rows, stored, attached) =
      stored_neighbors adapter ns p2 can answer
        (before.ready (interface_cache-IsReady s.device.id s.interfaces)) in
    let after = after_lldp-Grows now adapter p3 in
    (
      rows,
      after_lldp-neighbors now adapter p3
          ∙ stored
          ∙ rw (before.device, before_lldp-neighbors now adapter s0) refl,
      rw after.rows (
          subst (λ d. AreAttached d (keys_of p3.0.interfaces ++ after.added) ns rows) before.device
            (AreAttached-append p2.0.device.id (keys_of p3.0.interfaces) after.added ns rows
              attached)),
    )

-- After a run that has not read LLDP neighbours, because the adapter does not claim to or because
-- the read raised, they are as they were.
pub run_discovery-neighbors_kept :
    (now finished : ℕ) (triggered_by : Text) (adapter : Adapter) (s : Db)
    → (adapter.can read_lldp ≡ false) ⊎ ((e : Exception) × (adapter.lldp_neighbors ≡ raised e))
    → (run_discovery now finished triggered_by adapter s).1.neighbors ≡ s.neighbors
unfolding run_discovery read_all
run_discovery-neighbors_kept now finished triggered_by adapter s h =
    let s0 : Db = record s { cache = interface_cache s.device.id s.interfaces } in
    let p2 = before_lldp now adapter s0 in
    after_lldp-neighbors now adapter _
    ∙ unread_neighbors adapter p2 h
    ∙ before_lldp-neighbors now adapter s0
