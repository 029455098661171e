-- ===== src/Unifi/Console.antt =====
-- Requests to a controller, and what is done with several of them (`UnifiConsole` and the functions
-- that use it in backend/src/netbuddy/services/unifi_local.py). The state is the list of the requests
-- so far. An answer may depend on all requests before, and may be an exception.
use netbuddy.Base.{
  ℕ, Text, text, lower, or_empty, Bool, true, false, not, ◌&&◌, keep, List, [], ◌∷◌, ◌++◌, map,
  Option, none, some, nat_eq, list_eq, option_eq, ◌==◌, if◌then◌else◌, Action, Result, Exception,
  pure, throw, ◌>>=◌, ◌>>◌,
}
use netbuddy.Base.Dict.{lookup, insert}
use netbuddy.Unifi.Raw.{
  Json, boolean, number, string, Override, RawDevice, RawClient, RawNetwork, UnifiNetwork, str,
  parse_network,
}

-- A VLAN-only network: "purpose" is "vlan-only", "networkgroup" "LAN", and it is enabled.
pub data Change : Type 0 where
  post_network : Text → Text → ℕ → Change
  delete_network_conf : Text → Text → Change
  put_overrides : Text → Text → List Override → Change
  power_cycle_command : Text → Text → ℕ → Change

pub data Sent : Type 0 where
  login : Text → Sent
  get_sites : Sent
  get_devices get_clients get_networks : Text → Sent
  change : Change → Sent

pub record Answers : Type 0 where
  pub login : List Sent → Result {0} Unit
  pub sites : List Sent → Result (List (Option Text))
  pub devices : List Sent → Text → Result (List RawDevice)
  pub clients : List Sent → Text → Result (List RawClient)
  pub networks : List Sent → Text → Result (List RawNetwork)
  pub change : List Sent → Change → Result (List RawNetwork)

abbrev pub call : {A : Type 0} → Sent → (List Sent → Result A) → Action (List Sent) A
call request answer sent = (answer sent, sent ++ request ∷ [])

abbrev pub value_error : Exception
value_error = record { type_name = text "ValueError"; message = [] }

-- `next((d for d in devices if …), None)`
abbrev pub find : {A : Type 0} → (A → Bool) → List A → Option A
find p [] = none
find p (x ∷ xs) = if p x then some x else find p xs

abbrev pub is_device : Text → RawDevice → Bool
is_device switch_mac d = lower (or_empty d.mac) == lower switch_mac

-- `o.get("port_idx") == port_idx`; a Boolean counts as 0 or 1.
abbrev pub is_number : ℕ → Option Json → Bool
is_number n none = false
is_number n (some (number m)) = m == n
is_number n (some (boolean b)) = (if b then 1 else 0) == n
is_number n (some _) = false

abbrev pub is_port : ℕ → Override → Bool
is_port port_idx o = is_number port_idx (lookup (text "port_idx") o)

abbrev pub or_no_override : Option Override → Override
or_no_override none = []
or_no_override (some o) = o

unfoldable pub other_overrides : ℕ → List Override → List Override
other_overrides port_idx overrides = keep (λ o. not (is_port port_idx o)) overrides

-- The settings of a port, with its VLAN written over them.
unfoldable pub with_vlan : ℕ → Text → Override → Override
with_vlan port_idx networkconf_id existing = insert (text "forward") (string (text "native")) (
    insert (text "native_networkconf_id") (string networkconf_id)
      (insert (text "port_idx") (number port_idx) existing))

unfoldable pub access_overrides : ℕ → Text → List Override → List Override
unfolding other_overrides with_vlan
access_overrides port_idx networkconf_id overrides =
    other_overrides port_idx overrides
    ++ with_vlan port_idx networkconf_id (or_no_override (find (is_port port_idx) overrides)) ∷ []

abbrev pub vlan_network : ℕ → UnifiNetwork → Bool
vlan_network vlan_id n = n.vlan == some vlan_id && n.vlan_enabled

-- A network that was created, or else what was asked for.
abbrev created_network : Text → ℕ → List RawNetwork → UnifiNetwork
created_network name vlan [] = record {
  id = [];
  name = name;
  purpose = some (text "vlan-only");
  vlan_enabled = true;
  vlan = some vlan;
}
created_network name vlan (n ∷ created) = parse_network n

module _ (controller : Answers) where
  unfoldable pub sites : Action (List Sent) (List Text)
  sites = call get_sites controller.sites >>= λ names. pure (map str names)

  unfoldable pub devices : Text → Action (List Sent) (List RawDevice)
  devices site = call (get_devices site) (λ sent. controller.devices sent site)

  unfoldable pub clients : Text → Action (List Sent) (List RawClient)
  clients site = call (get_clients site) (λ sent. controller.clients sent site)

  unfoldable pub write : Change → Action (List Sent) (List RawNetwork)
  write c = call (change c) (λ sent. controller.change sent c)

  unfoldable pub power_cycle : Text → ℕ → Text → Action (List Sent) Unit
  unfolding write
  power_cycle switch_mac port_idx site =
      write (power_cycle_command site switch_mac port_idx) >> pure tt

  unfoldable pub networks : Text → Action (List Sent) (List UnifiNetwork)
  unfolding parse_network
  networks site = call (get_networks site) (λ sent. controller.networks sent site) >>= λ raw.
      pure (map parse_network raw)

  unfoldable pub create_vlan_only_network : Text → ℕ → Text → Action (List Sent) UnifiNetwork
  unfolding write parse_network
  create_vlan_only_network name vlan site =
      write (post_network site name vlan) >>= λ created. pure (created_network name vlan created)

  unfoldable pub delete_network : Text → Text → Action (List Sent) Unit
  unfolding write
  delete_network network_id site = write (delete_network_conf site network_id) >> pure tt

  unfoldable pub device_by_ip : Text → Text → Action (List Sent) (Option RawDevice)
  unfolding devices
  device_by_ip ip site = devices site >>= λ found. pure (find (λ d. str d.ip == ip) found)

  abbrev pub put_access : ℕ → Text → Text → Option RawDevice → Action (List Sent) Unit
  put_access port_idx networkconf_id site none = throw value_error
  put_access port_idx networkconf_id site (some d) =
      write (
        put_overrides site (or_empty d.id)
          (access_overrides port_idx networkconf_id d.port_overrides))
      >> pure tt

  unfoldable pub set_port_access_vlan : Text → ℕ → Text → Text → Action (List Sent) Unit
  unfolding devices write access_overrides
  set_port_access_vlan switch_mac port_idx networkconf_id site = devices site >>= λ found.
      put_access port_idx networkconf_id site (find (is_device switch_mac) found)

  abbrev put_others : ℕ → Text → Option RawDevice → Action (List Sent) Unit
  put_others port_idx site none = throw value_error
  put_others port_idx site (some d) =
      write (put_overrides site (or_empty d.id) (other_overrides port_idx d.port_overrides))
      >> pure tt

  unfoldable pub clear_port_override : Text → ℕ → Text → Action (List Sent) Unit
  unfolding devices write other_overrides
  clear_port_override switch_mac port_idx site =
      devices site >>= λ found. put_others port_idx site (find (is_device switch_mac) found)

  -- `async with UnifiConsole(…)` at the console of a site; its closing is not seen.
  abbrev pub base_url : Text → Text
  base_url ip = text "https://" ++ ip ++ text ":11443"

  abbrev pub at_console : {A : Type 0} → Option Text → Action (List Sent) A → Action (List Sent) A
  at_console none body = throw value_error
  at_console (some ip) body = call (login (base_url ip)) controller.login >> body

  -- The network of the VLAN, and then the switch: each has to be there.
  abbrev pub assign_to :
      ℕ → Text → Text → Option UnifiNetwork → Option RawDevice → Action (List Sent) UnifiNetwork
  assign_to port_idx unifi_site ip none sw = throw value_error
  assign_to port_idx unifi_site ip (some net) none = throw value_error
  assign_to port_idx unifi_site ip (some net) (some sw) =
      set_port_access_vlan (str sw.mac) port_idx net.id unifi_site >> pure net

  abbrev pub find_switch : ℕ → Text → Text → Option UnifiNetwork → Action (List Sent) UnifiNetwork
  find_switch port_idx unifi_site ip none = throw value_error
  find_switch port_idx unifi_site ip (some net) =
      device_by_ip ip unifi_site >>= λ sw. assign_to port_idx unifi_site ip (some net) sw

module _ (controller : Answers) (consoles : List (Text × Text)) (unifi_site : Text) where
  -- The id of the network that the port is put into.
  unfoldable pub assign_unifi_port_vlan : Text → Text → ℕ → ℕ → Action (List Sent) Text
  unfolding networks device_by_ip set_port_access_vlan
  assign_unifi_port_vlan site switch_ip port_idx vlan_id =
      at_console controller (lookup site consoles) (
        networks controller unifi_site >>= λ found.
        find_switch controller port_idx unifi_site switch_ip (find (vlan_network vlan_id) found)
        >>= λ net. pure net.id)

  abbrev reset_at : ℕ → Option RawDevice → Action (List Sent) Unit
  reset_at port_idx none = throw value_error
  reset_at port_idx (some sw) = clear_port_override controller (str sw.mac) port_idx unifi_site

  unfoldable pub reset_unifi_port_vlan : Text → Text → ℕ → Action (List Sent) Unit
  unfolding device_by_ip clear_port_override
  reset_unifi_port_vlan site switch_ip port_idx =
      at_console controller (lookup site consoles)
        (device_by_ip controller switch_ip unifi_site >>= λ sw. reset_at port_idx sw)

  unfoldable pub power_cycle_port : Text → Text → ℕ → Action (List Sent) Unit
  unfolding power_cycle
  power_cycle_port site switch_mac port_idx =
      at_console controller (lookup site consoles)
        (power_cycle controller switch_mac port_idx (text "default"))
