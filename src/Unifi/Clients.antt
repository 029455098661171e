-- ===== src/Unifi/Clients.antt =====
-- Reading whole consoles, and where their clients are (`fetch_console`, `fetch_all` and
-- `locate_clients` of backend/src/netbuddy/services/unifi_local.py). The consoles are read one after
-- the other, in their order.
use netbuddy.Base.{
  ℕ, Text, text, Bool, ◌||◌, List, [], ◌∷◌, ◌++◌, map, Option, none, some, or_empty, nat_eq,
  list_eq, ◌==◌, if◌then◌else◌, Action, Result, ok, raised, pure, ◌>>=◌,
}
use netbuddy.Base.Dict.{lookup, insert}
use netbuddy.Unifi.{UnifiDevice}
use netbuddy.Unifi.Raw.{RawDevice, UnifiClient, str, parse_device, parse_client}
use netbuddy.Unifi.Console.{Answers, Sent, at_console, sites, devices, clients}

-- Devices and clients.
abbrev pub Found : Type 0
Found = List UnifiDevice × List UnifiClient

abbrev is_known_type : RawDevice → Bool
is_known_type d = str d.type == text "usw" || str d.type == text "uap"

unfoldable pub parse_devices : Text → List RawDevice → List UnifiDevice
unfolding parse_device
parse_devices site [] = []
parse_devices site (d ∷ raw) =
    let rest = parse_devices site raw in
    if is_known_type d then parse_device d site ∷ rest else rest

-- `(await con.sites()) or ["default"]`
abbrev or_default : List Text → List Text
or_default [] = text "default" ∷ []
or_default (s ∷ names) = s ∷ names

module _ (controller : Answers) where
  unfoldable pub fetch_sites : Text → List Text → Found → Action (List Sent) Found
  unfolding devices clients parse_devices parse_client
  fetch_sites site [] found = pure found
  fetch_sites site (name ∷ names) (ds, cs) = devices controller name >>= λ raw_devices.
      clients controller name >>= λ raw_clients.
      fetch_sites site names
        (ds ++ parse_devices site raw_devices, cs ++ map (λ c. parse_client c site) raw_clients)

  unfoldable pub fetch_console : Text → Text → Action (List Sent) Found
  unfolding sites fetch_sites
  fetch_console site ip =
      at_console controller (some ip)
        (sites controller >>= λ names. fetch_sites site (or_default names) ([], []))

  -- A console that cannot be read gives nothing, and does not stop the others.
  abbrev found_of : Result Found → Found
  found_of (ok found) = found
  found_of (raised e) = ([], [])

  unfoldable pub fetch_all : List (Text × Text) → List Sent → Found × List Sent
  unfolding fetch_console
  fetch_all [] sent = (([], []), sent)
  fetch_all ((site, ip) ∷ consoles) sent =
      let (result, sent1) = fetch_console site ip sent in
      let ((ds, cs), sent2) = fetch_all consoles sent1 in
      (((found_of result).0 ++ ds, (found_of result).1 ++ cs), sent2)

pub record ClientLocation : Type 0 where
  pub mac : Text
  pub hostname : Option Text
  pub ip : Option Text
  pub kind : Text
  pub via_device : Option Text
  pub port : Option ℕ
  pub site : Text
  pub oui : Option Text

-- The devices of a type, by their MAC addresses.
abbrev by_mac : Text → List (Text × UnifiDevice) → List UnifiDevice → List (Text × UnifiDevice)
by_mac type table [] = table
by_mac type table (d ∷ ds) = by_mac type (if d.type == type then insert d.mac d table else table) ds

-- The device's name, which may be missing, or else its address.
abbrev via : Option Text → Option UnifiDevice → Option Text
via mac none = mac
via mac (some d) = d.name

module _ (ds : List UnifiDevice) where
  abbrev location : UnifiClient → Text → Option Text → Option ℕ → ClientLocation
  location c kind via_device port = record {
    mac = c.mac;
    hostname = c.hostname;
    ip = c.ip;
    kind = kind;
    via_device = via_device;
    port = port;
    site = c.site;
    oui = c.oui;
  }

  unfoldable pub locate_client : UnifiClient → ClientLocation
  locate_client c =
      if c.is_wired
      then location c (text "wired")
          (via c.sw_mac (lookup (or_empty c.sw_mac) (by_mac (text "usw") [] ds))) c.sw_port
      else location c (text "wireless")
          (via c.ap_mac (lookup (or_empty c.ap_mac) (by_mac (text "uap") [] ds))) none

  unfoldable pub locate_clients : List UnifiClient → List ClientLocation
  unfolding locate_client
  locate_clients [] = []
  locate_clients (c ∷ cs) = locate_client c ∷ locate_clients cs
