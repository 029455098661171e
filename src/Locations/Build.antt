-- ===== src/Locations/Build.antt =====
-- The map of access points and its sticky rows (`build_ap_locations` of
-- backend/src/netbuddy/services/endpoint_location.py).
use netbuddy.Base.{
  ℕ, Text, Bool, List, [], Option, nat_eq, list_eq, pair_eq, option_eq, if◌then◌else◌, Action, ok,
  pure, ◌>>=◌,
}
use netbuddy.Base.Dict.{lookup}
use netbuddy.Unifi.{UnifiDevice}
use netbuddy.Locations.Cloud.{CloudGroup, ApMeta, unifi_aps}
use netbuddy.Locations.Switches.{Loc, Seen, switch_locations}
use netbuddy.Locations.Local.{local_ap_index}
use netbuddy.Locations.Rows.{ApRow}
use netbuddy.Locations.Placement.{Placement, raw_loc, per_port, placement}
use netbuddy.Locations.Info.{ApLocationInfo, infos_of, sort_infos}
use netbuddy.Locations.Save.{Session, save_rows, persist_switch_uplinks, commit}

-- What the map is built from; `local_devices` is empty where the caller gives none.
pub record Sources : Type 0 where
  pub seen : Seen
  pub local_devices : List UnifiDevice
  pub groups : List CloudGroup
  pub now : ℕ

module _ (sources : Sources) where
  unfoldable pub aps_of : List (Text × ApMeta)
  unfolding unifi_aps
  aps_of = unifi_aps sources.groups

  unfoldable pub heuristic : Text → ApMeta → Option Loc
  unfolding raw_loc switch_locations
  heuristic mac meta =
      let (by_mac, by_name) = switch_locations sources.seen in raw_loc by_mac by_name mac meta

  unfoldable pub place_of : Text → ApMeta → Placement
  unfolding placement per_port aps_of heuristic local_ap_index
  place_of mac meta =
      placement (per_port heuristic aps_of []) meta.status
        (lookup mac (local_ap_index sources.seen.devices sources.local_devices))
        (heuristic mac meta)

  unfoldable pub built_session : List (Text × ApRow) → Session
  unfolding aps_of place_of save_rows persist_switch_uplinks
  built_session table =
      let s = save_rows sources.now place_of aps_of (record { existing = table; added = [] }) in
      record s {
        existing =
            persist_switch_uplinks sources.now sources.seen.devices sources.local_devices
              sources.local_devices s.existing;
      }

  -- The answer of the cloud, and from there to the sorted list.
  unfoldable pub build_ap_locations : Bool → Action (List (Text × ApRow)) (List ApLocationInfo)
  unfolding aps_of place_of infos_of sort_infos built_session
  build_ap_locations persist table =
      let infos = sort_infos (infos_of sources.seen.devices place_of table aps_of) in
      if persist
      then (commit (built_session table) >>= λ _. pure infos) table
      else (ok infos, table)
