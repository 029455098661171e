-- ===== src/Hosts.antt =====
-- Hosts, by the addresses that ARP tables and the DNS know (backend/src/netbuddy/services/hosts.py).
pub mod Mac
pub mod Correlate
mod Tests
use netbuddy.Base.{
  ℕ, suc, ◌+◌, Text, lower, strip, is_digit, Bool, true, false, not, ◌&&◌, ◌||◌, List, [], ◌∷◌, map,
  Option, none, some, keep, length, leb, nat_eq, list_eq, ◌==◌, if◌then◌else◌,
}
use netbuddy.Base.Dict.{lookup, insert}

-- `[0-9a-f]`
abbrev pub is_hex : ℕ → Bool
is_hex c = is_digit c || (leb b'a' c && leb c b'f')

-- The hexadecimal digits alone, if there are twelve, and the empty text otherwise.
unfoldable pub normalize_mac : Text → Text
normalize_mac raw =
    let cleaned = keep is_hex (lower (strip raw)) in if length cleaned == 12 then cleaned else []

-- A row of the ARP table, in the order of `updated_at`.
pub record ArpRow : Type 0 where
  pub mac : Text
  pub ip_address : Text

pub record Host : Type 0 where
  pub ip_address : Text
  pub name : Option Text
  pub resolved_at : ℕ

abbrev pub is_present : Text → Bool
is_present [] = false
is_present (c ∷ s) = true

abbrev pub add_ip : ArpRow → List (Text × Text) → List (Text × Text)
add_ip r ips =
    if is_present r.mac && is_present r.ip_address then insert r.mac r.ip_address ips else ips

-- `{mac: ip for mac, ip in rows if mac and ip}`
unfoldable pub ips_from : List (Text × Text) → List ArpRow → List (Text × Text)
ips_from ips [] = ips
ips_from ips (r ∷ rows) = ips_from (add_ip r ips) rows

-- A host's row is found by its MAC address, or added; all of its fields are written.
module _ (resolver : Text → Option Text) (now : ℕ) where
  abbrev pub host_at : Text → Host
  host_at ip = record { ip_address = ip; name = resolver ip; resolved_at = now }

  abbrev is_named : Option Text → Bool
  is_named none = false
  is_named (some name) = is_present name

  unfoldable pub upsert_hosts : List (Text × Text) → List (Text × Host) → List (Text × Host)
  upsert_hosts [] hosts = hosts
  upsert_hosts ((mac, ip) ∷ ips) hosts = upsert_hosts ips (insert mac (host_at ip) hosts)

  unfoldable pub count_resolved : List (Text × Text) → ℕ
  count_resolved [] = 0
  count_resolved ((mac, ip) ∷ ips) = (if is_named (resolver ip) then 1 else 0) + count_resolved ips

  -- The table of hosts, and the counts `hosts` and `resolved`.
  unfoldable pub correlate_hosts : List ArpRow → List (Text × Host) → List (Text × Host) × (ℕ × ℕ)
  unfolding ips_from upsert_hosts count_resolved
  correlate_hosts rows hosts =
      let ips = ips_from [] rows in (upsert_hosts ips hosts, (length ips, count_resolved ips))
