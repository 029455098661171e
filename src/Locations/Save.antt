-- ===== src/Locations/Save.antt =====
-- The rows that a rebuilt map leaves (`build_ap_locations` and `_persist_switch_uplinks` of
-- backend/src/netbuddy/services/endpoint_location.py).
use netbuddy.Base.{
  ℕ, Text, text, not, ◌||◌, any, List, [], ◌∷◌, ◌++◌, Option, none, some, is_some, nat_eq, list_eq,
  pair_eq, option_eq, ◌==◌, if◌then◌else◌, Action, ok, raised, Exception,
}
use netbuddy.Base.Dict.{lookup, insert}
use netbuddy.Inventory.{Device}
use netbuddy.Inventory.Switches.{resolve}
use netbuddy.Unifi.{UnifiDevice}
use netbuddy.Locations.Cloud.{ApMeta, norm_mac, or_text}
use netbuddy.Locations.Switches.{Loc}
use netbuddy.Locations.Local.{is_given, or_none, upstream_of}
use netbuddy.Locations.Rows.{ApRow, row_or_new}
use netbuddy.Locations.Placement.{Placement}

-- Place and time are written only when the access point was found.
abbrev pub relocate : ℕ → Option Loc → ApRow → ApRow
relocate now none row = row
relocate now (some loc) row = record row {
  device_id = some loc.device_id;
  port = loc.port;
  source = some loc.source;
  located_at = some now;
}

unfoldable pub write_row : ℕ → ApMeta → Placement → ApRow → ApRow
write_row now meta p row = relocate now p.loc (record row {
  ap_name = meta.name;
  ap_model = or_none meta.model;
  ap_ip = or_none meta.ip;
  status = meta.status;
  mesh = p.mesh;
  uplink_ap_mac = p.uplink_ap_mac;
  synced_at = some now;
})

-- The session's rows: those of `existing`, and those that were added and are not in it.
pub record Session : Type 0 where
  pub existing : List (Text × ApRow)
  pub added : List (Text × ApRow)

-- `row is None` adds a row, which does not enter `existing`.
abbrev pub save_row : Text → (ApRow → ApRow) → Session → Session
save_row mac write s =
    if is_some (lookup mac s.existing)
    then record s {
      existing = insert mac (write (row_or_new mac (lookup mac s.existing))) s.existing;
    }
    else record s { added = insert mac (write (row_or_new mac none)) s.added }

-- The loop over the access points, whose MAC addresses are the keys of a dictionary.
unfoldable pub save_rows :
    ℕ → (Text → ApMeta → Placement) → List (Text × ApMeta) → Session → Session
unfolding write_row
save_rows now place [] s = s
save_rows now place ((mac, meta) ∷ aps) s =
    save_rows now place aps (save_row mac (write_row now meta (place mac meta)) s)

-- A switch that hangs on another one: the row of the link between them.
abbrev write_uplink : ℕ → Option Text → Device → Device → ApRow → ApRow
write_uplink now name selfdev upstream row = record row {
  ap_name = or_text selfdev.hostname name;
  device_id = some upstream.id;
  port = none;
  source = some (text "unifi-switch");
  status = text "online";
  synced_at = some now;
  located_at = some now;
}

-- The row that is missing is added, and enters `existing`.
abbrev pub save_uplink :
    ℕ → UnifiDevice → Option Device → Option Device → List (Text × ApRow) → List (Text × ApRow)
save_uplink now d (some upstream) (some selfdev) existing =
    if upstream.id == selfdev.id
    then existing
    else let mac = norm_mac (some d.mac) in
      insert mac (write_uplink now d.name selfdev upstream (row_or_new mac (lookup mac existing)))
        existing
save_uplink now d _ _ existing = existing

-- One turn of the loop, with its `continue`s.
abbrev pub persist_uplink :
    ℕ → List Device → List UnifiDevice → UnifiDevice → List (Text × ApRow) → List (Text × ApRow)
persist_uplink now devices local d existing =
    if not (d.type == text "usw") || not (is_given d.uplink_mac)
    then existing
    else save_uplink now d (upstream_of devices local d.uplink_mac) (resolve devices d.name d.ip)
        existing

unfoldable pub persist_switch_uplinks :
    ℕ
    → List Device
    → List UnifiDevice
    → List UnifiDevice
    → List (Text × ApRow)
    → List (Text × ApRow)
persist_switch_uplinks now devices local [] existing = existing
persist_switch_uplinks now devices local (d ∷ rest) existing =
    persist_switch_uplinks now devices local rest (persist_uplink now devices local d existing)

abbrev integrity_error : Exception
integrity_error = record { type_name = text "IntegrityError"; message = [] }

-- Two rows with one MAC address end the commit.
abbrev pub commit : Session → Action (List (Text × ApRow)) Unit
commit s table =
    if any (λ p. is_some (lookup p.0 s.existing)) s.added
    then (raised integrity_error, table)
    else (ok tt, s.existing ++ s.added)
