-- ===== src/Locations/Info.antt =====
-- The list that a rebuilt map answers with (`build_ap_locations` of
-- backend/src/netbuddy/services/endpoint_location.py).
use netbuddy.Base.{
  text_lt, ℕ, Text, text, Bool, not, ◌&&◌, ◌||◌, List, [], ◌∷◌, Option, none, some, is_some, nat_eq,
  list_eq, pair_eq, option_eq, ◌==◌, if◌then◌else◌,
}
use netbuddy.Base.Dict.{lookup}
use netbuddy.Inventory.{Device}
use netbuddy.Locations.Cloud.{ApMeta}
use netbuddy.Locations.Switches.{Loc, device_with}
use netbuddy.Locations.Local.{or_none}
use netbuddy.Locations.Rows.{ApRow}
use netbuddy.Locations.Placement.{Placement}

pub record ApLocationInfo : Type 0 where
  pub ap_mac : Text
  pub ap_name : Text
  pub ap_model : Option Text
  pub ap_ip : Option Text
  pub status : Text
  pub device_id : Option ℕ
  pub device_hostname : Option Text
  pub port : Option Text
  pub source : Option Text
  pub mesh : Bool
  pub mesh_reason : Option Text
  pub uplink_ap_mac : Option Text

abbrev loc_device : Option Loc → Option ℕ
loc_device none = none
loc_device (some loc) = some loc.device_id

abbrev loc_hostname : Option Loc → Option Text
loc_hostname none = none
loc_hostname (some loc) = some loc.hostname

abbrev loc_port : Option Loc → Option Text
loc_port none = none
loc_port (some loc) = loc.port

abbrev loc_source : Option Loc → Option Text
loc_source none = none
loc_source (some loc) = some loc.source

abbrev live_info : Text → ApMeta → Placement → ApLocationInfo
live_info mac meta p = record {
  ap_mac = mac;
  ap_name = meta.name;
  ap_model = or_none meta.model;
  ap_ip = or_none meta.ip;
  status = meta.status;
  device_id = loc_device p.loc;
  device_hostname = loc_hostname p.loc;
  port = loc_port p.loc;
  source = loc_source p.loc;
  mesh = p.mesh;
  mesh_reason = p.mesh_reason;
  uplink_ap_mac = p.uplink_ap_mac;
}

abbrev hostname_at : List Device → ℕ → Option Text
hostname_at devices id = elim (device_with id devices) [ none ↦ none | some d ↦ some d.hostname ]

-- The last known place, for an access point without power.
abbrev sticky_info : List Device → ApRow → Option ℕ → ApLocationInfo → ApLocationInfo
sticky_info devices row none i = i
sticky_info devices row (some id) i = record i {
  device_id = some id;
  device_hostname = hostname_at devices id;
  port = row.port;
  source = row.source;
}

abbrev with_row : List Device → Option ApRow → ApLocationInfo → ApLocationInfo
with_row devices none i = i
with_row devices (some row) i = sticky_info devices row row.device_id i

unfoldable pub info_of : List Device → Text → ApMeta → Placement → Option ApRow → ApLocationInfo
info_of devices mac meta p row =
    if not (is_some p.loc) && meta.status == text "offline"
    then with_row devices row (live_info mac meta p)
    else live_info mac meta p

module _ (devices : List Device) (place : Text → ApMeta → Placement) where
  unfoldable pub infos_of : List (Text × ApRow) → List (Text × ApMeta) → List ApLocationInfo
  unfolding info_of
  infos_of existing [] = []
  infos_of existing ((mac, meta) ∷ aps) =
      info_of devices mac meta (place mac meta) (lookup mac existing) ∷ infos_of existing aps

-- `infos.sort(key=lambda i: (i.status != "offline", i.ap_name))`, which is stable.
abbrev pub is_offline : ApLocationInfo → Bool
is_offline i = i.status == text "offline"

abbrev pub is_before : ApLocationInfo → ApLocationInfo → Bool
is_before i j =
    if is_offline i
    then not (is_offline j) || text_lt i.ap_name j.ap_name
    else not (is_offline j) && text_lt i.ap_name j.ap_name

abbrev pub place_info : ApLocationInfo → List ApLocationInfo → List ApLocationInfo
place_info i [] = i ∷ []
place_info i (j ∷ infos) = if is_before j i then j ∷ place_info i infos else i ∷ j ∷ infos

unfoldable pub sort_infos : List ApLocationInfo → List ApLocationInfo
sort_infos [] = []
sort_infos (i ∷ infos) = place_info i (sort_infos infos)
