-- ===== src/Discovery/Vpn.antt =====
-- The upsert of VPN tunnels (backend/src/netbuddy/services/discovery.py).
use netbuddy.Base.{
  ℕ, Text, Bool, true, false, not, ◌&&◌, ◌||◌, List, [], ◌∷◌, ◌++◌, map, nat_eq, list_eq, contains,
  ◌==◌, if◌then◌else◌,
}
use netbuddy.Discovery.Rows.{VpnTunnelData, VpnTunnel}
use netbuddy.Discovery.Tables.{Db}

-- The dictionary of the device's tunnels holds the last row of each name; `rest` are the rows
-- behind a row.
abbrev pub is_tunnel : ℕ → Text → VpnTunnel → Bool
is_tunnel device_id name r = r.device_id == device_id && r.name == name

abbrev pub has_tunnel : ℕ → Text → List VpnTunnel → Bool
has_tunnel device_id name [] = false
has_tunnel device_id name (r ∷ rest) = is_tunnel device_id name r || has_tunnel device_id name rest

abbrev pub write_tunnel : VpnTunnelData → VpnTunnel → VpnTunnel
write_tunnel t r = record r {
  remote_gateway = t.remote_gateway;
  is_up = t.is_up;
  local_subnets = t.local_subnets;
  remote_subnets = t.remote_subnets;
}

unfoldable pub update_tunnel : ℕ → VpnTunnelData → List VpnTunnel → List VpnTunnel
update_tunnel device_id t [] = []
update_tunnel device_id t (r ∷ rest) =
    (if is_tunnel device_id t.name r && not (has_tunnel device_id t.name rest)
      then write_tunnel t r
      else r)
    ∷ update_tunnel device_id t rest

abbrev pub new_tunnel : ℕ → VpnTunnelData → VpnTunnel
new_tunnel device_id t = record {
  device_id = device_id;
  name = t.name;
  remote_gateway = t.remote_gateway;
  is_up = t.is_up;
  relevant = true;
  local_subnets = t.local_subnets;
  remote_subnets = t.remote_subnets;
}

-- The loop over the reported tunnels: the rows that the dictionary was made of, and those added.
unfoldable pub write_tunnels :
    ℕ → List VpnTunnelData → List VpnTunnel → List VpnTunnel → List VpnTunnel × List VpnTunnel
unfolding update_tunnel
write_tunnels device_id [] old added = (old, added)
write_tunnels device_id (t ∷ more) old added =
    if has_tunnel device_id t.name old
    then write_tunnels device_id more (update_tunnel device_id t old) added
    else write_tunnels device_id more old (added ++ new_tunnel device_id t ∷ [])

-- The rows of the dictionary whose names were not seen are deleted.
unfoldable pub drop_gone : ℕ → List Text → List VpnTunnel → List VpnTunnel
drop_gone device_id seen [] = []
drop_gone device_id seen (r ∷ rest) =
    let kept = drop_gone device_id seen rest in
    if is_tunnel device_id r.name r
      && not (has_tunnel device_id r.name rest)
      && not (contains r.name seen)
    then kept
    else r ∷ kept

unfoldable pub store_tunnels : List VpnTunnelData → Db → Db
unfolding write_tunnels drop_gone
store_tunnels tunnels s =
    let (old, added) = write_tunnels s.device.id tunnels s.tunnels [] in
    record s { tunnels = drop_gone s.device.id (map (λ t. t.name) tunnels) old ++ added }
