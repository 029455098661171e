-- ===== src/Locations/Local.antt =====
-- What the local controllers know of the access points (`_local_ap_index` of
-- backend/src/netbuddy/services/endpoint_location.py).
use netbuddy.Base.{
  Text, text, or_empty, Bool, true, false, not, ◌&&◌, List, [], ◌∷◌, Option, none, some, nat_eq,
  list_eq, ◌==◌, if◌then◌else◌,
}
use netbuddy.Base.Dict.{lookup, insert}
use netbuddy.Inventory.{Device}
use netbuddy.Inventory.Switches.{resolve}
use netbuddy.Unifi.{UnifiDevice}
use netbuddy.Locations.Cloud.{norm_mac}
use netbuddy.Locations.Switches.{Loc}

-- The controllers' switches: name and address by MAC address.
abbrev pub usw_from :
    List (Text × (Option Text × Option Text))
    → List UnifiDevice
    → List (Text × (Option Text × Option Text))
usw_from table [] = table
usw_from table (d ∷ devices) =
    usw_from
      (if d.type == text "usw" then insert (norm_mac (some d.mac)) (d.name, d.ip) table else table)
      devices

abbrev resolve_entry : List Device → Option (Option Text × Option Text) → Option Device
resolve_entry devices none = resolve devices none none
resolve_entry devices (some (name, ip)) = resolve devices name ip

-- The switch that a MAC address stands for, by way of the controllers' list.
unfoldable pub upstream_of : List Device → List UnifiDevice → Option Text → Option Device
unfolding norm_mac resolve
upstream_of devices local uplink_mac =
    resolve_entry devices (lookup (norm_mac uplink_mac) (usw_from [] local))

-- Whether a text is there and not empty.
abbrev pub is_given : Option Text → Bool
is_given none = false
is_given (some []) = false
is_given (some (c ∷ s)) = true

-- `text or None`
abbrev pub or_none : Text → Option Text
or_none [] = none
or_none (c ∷ s) = some (c ∷ s)

pub record ApIndex : Type 0 where
  pub loc : Option Loc
  pub wireless : Bool
  pub parent_ap : Option Text

abbrev uplink_loc : Option Device → Option Loc
uplink_loc none = none
uplink_loc (some d) =
    some (record { device_id = d.id; hostname = d.hostname; port = none; source = text "unifi" })

abbrev is_wireless : UnifiDevice → Bool
is_wireless d = or_empty d.uplink_type == text "wireless"

abbrev index_entry : List Device → List UnifiDevice → UnifiDevice → ApIndex
index_entry devices local d = record {
  loc =
      if is_given d.uplink_mac && not (is_wireless d)
      then uplink_loc (upstream_of devices local d.uplink_mac)
      else none;
  wireless = is_wireless d;
  parent_ap =
      if is_wireless d && is_given d.uplink_mac then or_none (norm_mac d.uplink_mac) else none;
}

unfoldable pub index_from :
    List Device
    → List UnifiDevice
    → List (Text × ApIndex)
    → List UnifiDevice
    → List (Text × ApIndex)
unfolding norm_mac upstream_of
index_from devices local index [] = index
index_from devices local index (d ∷ rest) =
    index_from devices local
      (if d.type == text "uap"
        then insert (norm_mac (some d.mac)) (index_entry devices local d) index
        else index)
      rest

unfoldable pub local_ap_index : List Device → List UnifiDevice → List (Text × ApIndex)
unfolding index_from
local_ap_index devices local = index_from devices local [] local
