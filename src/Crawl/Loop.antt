-- ===== src/Crawl/Loop.antt =====
-- The breadth-first loop of a crawl (backend/src/netbuddy/services/crawl.py). What a device answers
-- and which vendors and sites there are are parameters. A new device whose host name an active
-- device has violates the unique index of devices, and the flush raises.
use netbuddy.Base.{
  ℕ, zero, suc, Text, text, take_while, Bool, true, false, not, ◌&&◌, ◌||◌, List, [], ◌∷◌, ◌++◌,
  map, keep, length, contains, Option, none, some, leb, nat_eq, list_eq, ◌==◌, or_else,
  if◌then◌else◌, Result, ok, raised, Exception, Action, and_then,
}
use netbuddy.Inventory.{Device, DeviceCredential, Credential, ssh, object_of, replace_device}
use netbuddy.Discovery.Rows.{Adapter, LldpNeighbor}
use netbuddy.Discovery.Tables.{Db}
use netbuddy.Discovery.Run.{run_discovery}
use netbuddy.Crawl.Guess.{guess_adapter, guess_device_type}

pub record CrawlAdded : Type 0 where
  pub hostname : Text
  pub mgmt_ip : Text
  pub adapter_id : Text

pub record CrawlReport : Type 0 where
  pub seeds : ℕ
  pub discovered : List Text
  pub added : List CrawlAdded
  pub errors : List (Text × Exception)

-- The tables of a discovery, those of devices and their credentials, and the variables of the
-- function.
pub record CrawlState : Type 0 where
  pub db : Db
  pub devices : List Device
  pub links : List DeviceCredential
  pub next_device : ℕ
  pub known_ips : List Text
  pub seen_devices : List ℕ
  pub queue : List (Device × ℕ)
  pub report : CrawlReport

-- What a crawl is called with, and what lies outside: the connections, the vendors by MAC address,
-- the sites, and the clock.
pub record CrawlCall : Type 0 where
  pub credential : Credential
  pub max_depth : ℕ
  pub default_adapter_id : Option Text
  pub provider : Device → Credential → Result Adapter
  pub vendors : List (Text × Text)
  pub site_for_ip : Text → Option ℕ
  pub now : ℕ

abbrev pub integrity_error : Exception
integrity_error = record {
  type_name = text "IntegrityError";
  message = text "uq_device_hostname_active";
}

abbrev pub is_taken : Text → List Device → Bool
is_taken hostname [] = false
is_taken hostname (d ∷ devices) =
    (not d.deleted && d.hostname == hostname) || is_taken hostname devices

-- `adapter_id.split("_")[0]`
abbrev pub before_underscore : Text → Text
before_underscore s = take_while (λ c. not (c == b'_')) s

-- `neighbor.remote_system_name or mgmt`
abbrev pub name_or : Text → Option Text → Text
name_or mgmt none = mgmt
name_or mgmt (some []) = mgmt
name_or mgmt (some (c ∷ s)) = c ∷ s

-- The neighbours of a device with an address that is not known.
abbrev pub address_of : List Text → LldpNeighbor → Bool
address_of known n = elim n.remote_mgmt_address [ none ↦ false | some ip ↦ not (contains ip known) ]

unfoldable pub new_neighbors : ℕ → List Text → List LldpNeighbor → List LldpNeighbor
new_neighbors device_id known rows =
    keep (λ n. n.local_device_id == device_id && address_of known n) rows

-- `{d.mgmt_ip for d in existing}`, of the devices in use.
abbrev pub active_ips : List Device → List Text
active_ips [] = []
active_ips (d ∷ devices) = if d.deleted then active_ips devices else d.mgmt_ip ∷ active_ips devices

module _ (call : CrawlCall) where
  abbrev pub new_device : ℕ → Device → LldpNeighbor → (mgmt adapter_id : Text) → Device
  new_device id device n mgmt adapter_id = record {
    id = id;
    site_id = or_else (call.site_for_ip mgmt) device.site_id;
    hostname = name_or mgmt n.remote_system_name;
    mgmt_ip = mgmt;
    vendor = before_underscore adapter_id;
    model = none;
    os_version = none;
    serial_number = none;
    device_type = guess_device_type adapter_id n.remote_system_description;
    adapter_id = adapter_id;
    enabled = true;
    last_seen = none;
    deleted = false;
  }

  -- What is written for a neighbour that the flush accepts.
  abbrev pub enqueue : Device → ℕ → CrawlState → CrawlState
  enqueue d depth s = if contains d.id s.seen_devices then s else (record s {
    seen_devices = d.id ∷ s.seen_devices;
    queue = s.queue ++ (d, suc depth) ∷ [];
  })

  abbrev pub recorded : Device → CrawlState → CrawlState
  recorded d s = record s {
    devices = s.devices ++ d ∷ [];
    links =
        s.links
        ++ record {
          device_id = d.id;
          credential_id = call.credential.id;
          protocol = ssh;
          deleted = false;
        }
          ∷ [];
    next_device = suc s.next_device;
    known_ips = d.mgmt_ip ∷ s.known_ips;
    report = record s.report {
      added =
          s.report.added
          ++ record { hostname = d.hostname; mgmt_ip = d.mgmt_ip; adapter_id = d.adapter_id } ∷ [];
    };
  }

  abbrev pub add_device : Device → ℕ → CrawlState → CrawlState
  add_device d depth s = enqueue d depth (recorded d s)

  abbrev pub insert_device : Device → ℕ → Action CrawlState (Unit {0})
  insert_device d depth s =
      if is_taken d.hostname s.devices
      then (raised integrity_error, s)
      else (ok tt, add_device d depth s)

  -- A neighbour whose adapter nobody can guess is passed over.
  abbrev pub add_guessed :
      Device → ℕ → LldpNeighbor → Text → Option Text → Action CrawlState (Unit {0})
  add_guessed device depth n mgmt none s = (ok tt, s)
  add_guessed device depth n mgmt (some adapter_id) s =
      insert_device (new_device s.next_device device n mgmt adapter_id) depth s

  abbrev pub add_at : Device → ℕ → LldpNeighbor → Option Text → Action CrawlState (Unit {0})
  add_at device depth n none s = (ok tt, s)
  add_at device depth n (some mgmt) s =
      add_guessed device depth n mgmt
        (guess_adapter call.vendors n.remote_system_description call.default_adapter_id
          n.remote_chassis_id)
        s

  unfoldable pub add_neighbor : Device → ℕ → LldpNeighbor → Action CrawlState (Unit {0})
  add_neighbor device depth n = add_at device depth n n.remote_mgmt_address

  unfoldable pub add_all : Device → ℕ → List LldpNeighbor → Action CrawlState (Unit {0})
  unfolding add_neighbor
  add_all device depth [] s = (ok tt, s)
  add_all device depth (n ∷ ns) s =
      let (r, s1) = add_neighbor device depth n s in and_then r (λ _. add_all device depth ns) s1

  -- The neighbours of a device that was read, unless it stands at the greatest depth.
  unfoldable pub follow : Device → ℕ → Action CrawlState (Unit {0})
  unfolding add_all
  follow device depth s =
      if leb call.max_depth depth
      then (ok tt, s)
      else add_all device depth (new_neighbors device.id s.known_ips s.db.neighbors) s

  abbrev pub discover : Device → Adapter → CrawlState → CrawlState
  discover device adapter s =
      let (run, db) =
        run_discovery call.now call.now (text "crawl") adapter
          (record s.db { device = object_of device s.devices }) in
      record s {
        db = db;
        devices = replace_device db.device s.devices;
        report = record s.report { discovered = s.report.discovered ++ device.hostname ∷ [] };
      }

  -- A device that cannot be reached is noted, and its neighbours are not asked for.
  abbrev pub visit_with : Device → ℕ → Result Adapter → Action CrawlState (Unit {0})
  visit_with device depth (raised e) s = (
    ok tt,
    record s { report = record s.report { errors = s.report.errors ++ (device.hostname, e) ∷ [] } },
  )
  visit_with device depth (ok adapter) s = follow device depth (discover device adapter s)

  unfoldable pub visit : Device → ℕ → Action CrawlState (Unit {0})
  unfolding new_neighbors follow
  visit device depth = visit_with device depth (call.provider device call.credential)

  -- An exception of a visit leaves the function.
  abbrev pub carry_on :
      Result (Unit {0})
      → CrawlState
      → Option (Result (Unit {0}) × CrawlState)
      → Option (Result (Unit {0}) × CrawlState)
  carry_on (ok _) s rest = rest
  carry_on (raised e) s rest = some (raised e, s)

  -- `while queue`, on fuel: `none` when it is used up.
  unfoldable pub crawl_loop : ℕ → CrawlState → Option (Result (Unit {0}) × CrawlState)
  unfolding visit
  crawl_loop zero s = none
  crawl_loop (suc fuel) s = elim s.queue [
    | [] ↦ some (ok tt, s)
    | p ∷ queue ↦
        let (r, s1) = visit p.0 p.1 (record s { queue = queue }) in
        carry_on r s1 (crawl_loop fuel s1)
  ]

  -- The variables at the start of the loop.
  abbrev pub start : List Device → CrawlState → CrawlState
  start seeds s = record s {
    known_ips = active_ips s.devices;
    seen_devices = map (λ d. d.id) seeds;
    queue = map (λ d. (d, 0)) seeds;
    report = record { seeds = length seeds; discovered = []; added = []; errors = [] };
  }

  unfoldable pub crawl : ℕ → List Device → CrawlState → Option (Result (Unit {0}) × CrawlState)
  unfolding crawl_loop
  crawl fuel seeds s = crawl_loop fuel (start seeds s)
