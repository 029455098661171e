-- ===== src/Discovery/Snapshot.antt =====
-- Storing interfaces that another component has read (`persist_interface_snapshot` of
-- backend/src/netbuddy/services/discovery.py).
use netbuddy.Base.{ℕ, Text, ◌≡◌, refl, List, ◌++◌, All}
use netbuddy.Discovery.Rows.{InterfaceData, success}
use netbuddy.Discovery.Tables.{Db, interface_cache}
use netbuddy.Discovery.Run.{persist_interface_snapshot}
use netbuddy.Discovery.Keys.{InterfaceKey, keys_of, IsActive, interface_cache-IsReady}
use netbuddy.Discovery.Grows.{HasDistinctNames, store_interfaces-Grows}
use netbuddy.Discovery.Neighbors.{store_interfaces-neighbors}

-- A snapshot is a successful run. It leaves the identity of every interface and the LLDP
-- neighbours as they are, adds active interfaces of its own device, and, where no two active
-- interfaces of one device have the same name, keeps it so.
pub persist_interface_snapshot-interfaces :
    (now finished : ℕ) (triggered_by : Text) (interfaces : List InterfaceData) (s : Db)
    → HasDistinctNames (keys_of s.interfaces)
    → (let (run, after) = persist_interface_snapshot now finished triggered_by interfaces s in
        (run.status ≡ success)
        × (after.neighbors ≡ s.neighbors)
        × ((added : List InterfaceKey) × (keys_of after.interfaces ≡ keys_of s.interfaces ++ added)
            × All (IsActive s.device.id) added)
        × HasDistinctNames (keys_of after.interfaces))
unfolding persist_interface_snapshot
persist_interface_snapshot-interfaces now finished triggered_by interfaces s distinct =
    let s0 : Db = record s { cache = interface_cache s.device.id s.interfaces } in
    let grows = store_interfaces-Grows now interfaces s0 in
    (
      refl,
      store_interfaces-neighbors now interfaces s0,
      (grows.added, grows.rows, grows.each),
      grows.distinct (interface_cache-IsReady s.device.id s.interfaces) distinct,
    )
