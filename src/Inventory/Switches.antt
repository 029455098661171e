-- ===== src/Inventory/Switches.antt =====
-- The switches in use, as `collect_unifi_stuck` (backend/src/netbuddy/services/poe_recover.py) and
-- endpoint_location.py find them: by name, or else by address.
use netbuddy.Base.{
  Text, upper, or_empty, or_else, Bool, true, false, not, ◌&&◌, List, [], ◌∷◌, Option, none, some,
  nat_eq, list_eq, if◌then◌else◌,
}
use netbuddy.Base.Dict.{lookup, insert}
use netbuddy.Inventory.{Device, DeviceType, switch}

abbrev is_switch : DeviceType → Bool
is_switch switch = true
is_switch _ = false

-- By the name in upper case, and by the address; the last one of a key counts.
abbrev switches_by : (Device → Text) → List (Text × Device) → List Device → List (Text × Device)
switches_by key table [] = table
switches_by key table (d ∷ devices) =
    switches_by key
      (if is_switch d.device_type && not d.deleted then insert (key d) d table else table) devices

abbrev pub by_host : List Device → List (Text × Device)
by_host devices = switches_by (λ d. upper d.hostname) [] devices

abbrev pub by_ip : List Device → List (Text × Device)
by_ip devices = switches_by (λ d. d.mgmt_ip) [] devices

-- `by_ip.get(ip) if ip else None`
abbrev pub at_ip : List Device → Option Text → Option Device
at_ip devices none = none
at_ip devices (some []) = none
at_ip devices (some (c ∷ s)) = lookup (c ∷ s) (by_ip devices)

unfoldable pub resolve : List Device → Option Text → Option Text → Option Device
resolve devices name ip =
    or_else (lookup (upper (or_empty name)) (by_host devices)) (at_ip devices ip)
