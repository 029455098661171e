-- ===== src/Crawl/Tests.antt =====
-- A crawl from one switch that sees another, and the theorems there.
use netbuddy.Base.{
  ℕ, ◌≤◌, Text, text, lower_char, ◌≡◌, refl, true, false, List, [], ◌∷◌, Option, none, some, Result,
  ok, raised, Exception, All, nat_eq, list_eq, ◌==◌, if◌then◌else◌, ◌⊎◌,
}
use netbuddy.Inventory.{Device, switch}
use netbuddy.Discovery.Rows.{Adapter, LldpNeighbor, LldpNeighborData}
use netbuddy.Discovery.Tables.{
  Db, store_arp, store_mac_table, store_neighbors, store_interfaces, cache_from,
}
use netbuddy.Discovery.Vpn.{store_tunnels}
use netbuddy.Discovery.Run.{run_discovery}
use netbuddy.Crawl.Guess.{guess_adapter}
use netbuddy.Crawl.Sites.{IpLibrary, SiteSubnet, site_for_ip}
use netbuddy.Crawl.Longest.{IsIn, matches, site_for_ip-longest}
use netbuddy.Crawl.Loop.{
  CrawlCall, CrawlState, integrity_error, new_device, add_device, add_all, crawl,
}
use netbuddy.Crawl.Terminates.{crawl-Ends}
use netbuddy.Crawl.Parallel.{add_all-parallel}

abbrev seed : Device
seed = record {
  id = 1;
  site_id = some 3;
  hostname = text "core";
  mgmt_ip = text "10.0.0.1";
  vendor = text "dell";
  model = none;
  os_version = none;
  serial_number = none;
  device_type = switch;
  adapter_id = text "dell_os6";
  enabled = true;
  last_seen = none;
  deleted = false;
}

abbrev seen : LldpNeighborData
seen = record {
  local_interface = text "Gi1/0/1";
  remote_chassis_id = [];
  remote_port_id = text "eth0";
  remote_port_description = none;
  remote_system_name = some (text "edge");
  remote_system_description = some (text "Cisco IOS");
  mgmt_address = some (text "10.0.0.2");
}

abbrev unread : Exception
unread = record { type_name = text "CapabilityNotSupportedError"; message = [] }

abbrev adapter : Adapter
adapter = record {
  can = λ c. true;
  system_info = raised unread;
  interfaces = ok [];
  lldp_neighbors = ok (seen ∷ []);
  mac_table = ok [];
  arp = ok [];
  vpn_tunnels = ok [];
}

-- Only the seed can be reached.
abbrev call : CrawlCall
call = record {
  credential = record {
    id = 7;
    name = text "admin";
    base_url = none;
    api_token = none;
    deleted = false;
  };
  max_depth = 2;
  default_adapter_id = none;
  provider = λ device credential. if device.id == 1 then ok adapter else raised unread;
  vendors = [];
  site_for_ip = λ ip. none;
  now = 100;
}

abbrev db : Db
db = record {
  device = seed;
  interfaces = [];
  next_id = 1;
  cache = [];
  neighbors = [];
  mac_entries = [];
  arp_entries = [];
  tunnels = [];
  runs = [];
}

abbrev state : CrawlState
state = record {
  db = db;
  devices = seed ∷ [];
  links = [];
  next_device = 2;
  known_ips = [];
  seen_devices = [];
  queue = [];
  report = record { seeds = 0; discovered = []; added = []; errors = [] };
}

abbrev the : Option (Result (Unit {0}) × CrawlState) → Result (Unit {0}) × CrawlState
the none = (ok tt, state)
the (some out) = out

abbrev outcome : Result (Unit {0}) × CrawlState
outcome = the (crawl call 3 (seed ∷ []) state)

program : Unit {0}
unfolding crawl run_discovery store_tunnels store_arp store_mac_table store_neighbors
    store_interfaces cache_from guess_adapter lower_char
program = tt

test_crawl :
    outcome.1.report.added
    ≡ record { hostname = text "edge"; mgmt_ip = text "10.0.0.2"; adapter_id = text "cisco_ios" }
      ∷ []
unfolding program
test_crawl = refl

crawl-Ends_example :
    (out : Result (Unit {0}) × CrawlState) × (fuel : ℕ) × ((enough : ℕ)
      → fuel ≤ enough
      → crawl call enough (seed ∷ []) state ≡ some out)
crawl-Ends_example = crawl-Ends call (seed ∷ []) state

abbrev neighbor : Text → LldpNeighbor
neighbor port = record {
  local_device_id = 1;
  local_interface_id = 1;
  remote_chassis_id = [];
  remote_port_id = port;
  remote_port_description = none;
  remote_system_name = some (text "edge");
  remote_system_description = some (text "Cisco IOS");
  remote_mgmt_address = some (text "10.0.0.2");
}

abbrev first : Device
first = new_device call 2 seed (neighbor (text "eth0")) (text "10.0.0.2") (text "cisco_ios")

add_all-parallel_example :
    add_all call seed 0 (neighbor (text "eth0") ∷ neighbor (text "eth1") ∷ []) state
    ≡ (raised integrity_error, add_device call first 0 state)
unfolding guess_adapter lower_char
add_all-parallel_example =
    add_all-parallel call seed 0 (neighbor (text "eth0")) (neighbor (text "eth1")) []
      (text "10.0.0.2") (text "cisco_ios") (text "cisco_ios") state refl refl refl refl refl refl

-- Addresses and networks by the length of what they have in common.
abbrev lib : IpLibrary Text Text
lib = record {
  ip_address = λ ip. some ip;
  ip_network = λ cidr. some cidr;
  prefixlen = λ net. if net == text "10." then 8 else 24;
  contains_address = λ net ip. true;
  overlaps = λ a b. true;
}

abbrev subnets : List SiteSubnet
subnets =
    record { cidr = text "10."; site_id = 1 } ∷ record { cidr = text "10.0.0."; site_id = 2 } ∷ []

test_site : site_for_ip lib subnets (text "10.0.0.2") ≡ some 2
unfolding site_for_ip
test_site = refl

site_for_ip-longest_example :
    ((site_for_ip lib subnets (text "10.0.0.2") ≡ none)
      × (matches lib (text "10.0.0.2") subnets ≡ []))
    ⊎ ((len site : ℕ) × (site_for_ip lib subnets (text "10.0.0.2") ≡ some site)
        × IsIn (len, site) (matches lib (text "10.0.0.2") subnets)
        × All (λ (m : ℕ × ℕ). m.0 ≤ len) (matches lib (text "10.0.0.2") subnets))
site_for_ip-longest_example =
    site_for_ip-longest lib subnets (text "10.0.0.2") (text "10.0.0.2") refl
