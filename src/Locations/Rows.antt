-- ===== src/Locations/Rows.antt =====
-- The rows of `ap_location` (backend/src/netbuddy/db/models), by the MAC address, which is unique.
-- The lengths of the columns are not modelled.
use netbuddy.Base.{ℕ, Text, text, Bool, false, List, [], map, Option, none, some}
use netbuddy.Poe.Fleet.{ApLocation}

pub record ApRow : Type 0 where
  pub ap_mac : Text
  pub ap_name : Text
  pub ap_model : Option Text
  pub ap_ip : Option Text
  pub status : Text
  pub device_id : Option ℕ
  pub port : Option Text
  pub source : Option Text
  pub mesh : Bool
  pub uplink_ap_mac : Option Text
  pub synced_at : Option ℕ
  pub located_at : Option ℕ

abbrev pub new_row : Text → ApRow
new_row ap_mac = record {
  ap_mac = ap_mac;
  ap_name = [];
  ap_model = none;
  ap_ip = none;
  status = text "unknown";
  device_id = none;
  port = none;
  source = none;
  mesh = false;
  uplink_ap_mac = none;
  synced_at = none;
  located_at = none;
}

-- `existing.get(mac)`, or a new row
abbrev pub row_or_new : Text → Option ApRow → ApRow
row_or_new mac none = new_row mac
row_or_new mac (some row) = row

-- What the recovery of stuck ports reads of a row.
abbrev pub ap_location : ApRow → ApLocation
ap_location r = record {
  ap_mac = r.ap_mac;
  ap_name = r.ap_name;
  status = r.status;
  device_id = r.device_id;
  port = r.port;
}

abbrev pub ap_locations : List (Text × ApRow) → List ApLocation
ap_locations table = map (λ p. ap_location p.1) table
