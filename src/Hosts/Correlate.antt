-- ===== src/Hosts/Correlate.antt =====
-- What a correlation writes.
use netbuddy.Base.{
  ℕ, Text, List, [], ◌∷◌, Option, none, some, nat_eq, list_eq, ◌==◌, if◌then◌else◌, or_else, ◌&&◌,
}
use netbuddy.Hosts.{ArpRow, Host, is_present, host_at}

-- The address that a row has for the MAC address.
abbrev ip_in : Text → ArpRow → Option Text
ip_in mac r =
    if (is_present r.mac && is_present r.ip_address) && r.mac == mac
    then some r.ip_address
    else none

-- The address of the last row that has one for the MAC address.
abbrev pub last_ip : Text → List ArpRow → Option Text
last_ip mac [] = none
last_ip mac (r ∷ rows) = or_else (last_ip mac rows) (ip_in mac r)

-- The host that a correlation writes at an address, if there is one.
abbrev pub written : (Text → Option Text) → ℕ → Option Text → Option Host
written resolver now none = none
written resolver now (some ip) = some (host_at resolver now ip)
