-- ===== src/Poe/Fleet.antt =====
-- Finding and recovering the stuck ports of all switches
-- (backend/src/netbuddy/services/poe_recover.py). The access points' locations are those that
-- `build_ap_locations` has left in the database.
pub mod Collect
pub mod Recover
use netbuddy.Base.{
  ℕ, Text, text, lower, is_infix, Bool, true, false, not, ◌&&◌, List, [], ◌∷◌, ◌++◌, cons_some,
  Option, none, some, nat_eq, list_eq, pair_eq, ◌==◌, if◌then◌else◌, Action, Result, ok, raised,
  pure, and_then,
}
use netbuddy.Base.Dict.{lookup, insert}
use netbuddy.Inventory.{Device, Credential, DeviceCredential}
use netbuddy.Profile.{PoeControlSpec}
use netbuddy.Hardware.{Op, Switch}
use netbuddy.Poe.Port.{PoePort, is_stuck}
use netbuddy.Poe.Bounce.{scan_poe}
use netbuddy.Poe.Policy.{PoeEvent, Request, Store, recover_with_policy}

-- What the recovery reads of an `ap_location` row.
pub record ApLocation : Type 0 where
  pub ap_mac : Text
  pub ap_name : Text
  pub status : Text
  pub device_id : Option ℕ
  pub port : Option Text

pub record StuckHit : Type 0 where
  pub device : Device
  pub cred : Credential
  pub spec : PoeControlSpec
  pub port : PoePort
  pub ap : ApLocation

-- The profiles by their adapter, each with its PoE path, if it has one.
abbrev pub Profiles : Type 0
Profiles = List (Text × Option PoeControlSpec)

-- `None` for an empty adapter, an unknown one, and one without a PoE path.
unfoldable pub poe_spec : Profiles → Text → Option PoeControlSpec
poe_spec profiles [] = none
poe_spec profiles (c ∷ s) = elim (lookup (c ∷ s) profiles) [ none ↦ none | some spec ↦ spec ]

-- The query's rows in the order of the tables, of which `first()` takes one.
unfoldable pub credential_of : ℕ → List Credential → Option Credential
credential_of id [] = none
credential_of id (c ∷ cs) = if c.id == id && not c.deleted then some c else credential_of id cs

unfoldable pub device_credential :
    List DeviceCredential → List Credential → Device → Option Credential
device_credential [] credentials device = none
device_credential (l ∷ links) credentials device =
    let later = device_credential links credentials device in
    if l.device_id == device.id && not l.deleted
    then (elim (credential_of l.credential_id credentials) [ none ↦ later | some c ↦ some c ])
    else later

pub record Job : Type 0 where
  pub device : Device
  pub cred : Credential
  pub spec : PoeControlSpec

-- The devices that can be read: not deleted, with a PoE path and a credential.
module _ (profiles : Profiles) (links : List DeviceCredential) (credentials : List Credential) where
  unfoldable pub job_of : Device → Option Job
  unfolding poe_spec device_credential
  job_of device = if device.deleted then none else elim (poe_spec profiles device.adapter_id) [
    | none ↦ none
    | some spec ↦ elim (device_credential links credentials device) [
      | none ↦ none
      | some cred ↦ some (record { device = device; cred = cred; spec = spec })
    ]
  ]

  unfoldable pub jobs_of : List Device → List Job
  jobs_of [] = []
  jobs_of (d ∷ devices) = cons_some (job_of d) (jobs_of devices)

-- `{(r.device_id, r.port): r for r in ap_rows if r.device_id and r.port}`
abbrev pub add_ap :
    ApLocation
    → Option ℕ
    → Option Text
    → List ((ℕ × Text) × ApLocation)
    → List ((ℕ × Text) × ApLocation)
add_ap r (some id) (some (c ∷ s)) table = insert (id, c ∷ s) r table
add_ap r _ _ table = table

unfoldable pub port_to_ap :
    List ((ℕ × Text) × ApLocation) → List ApLocation → List ((ℕ × Text) × ApLocation)
port_to_ap table [] = table
port_to_ap table (r ∷ rows) = port_to_ap (add_ap r r.device_id r.port table) rows

-- The event table, and what each switch was sent.
pub record Fleet : Type 0 where
  pub events : List PoeEvent
  pub sent : List (ℕ × List Op)

abbrev pub or_nothing : Option (List Op) → List Op
or_nothing none = []
or_nothing (some ops) = ops

abbrev pub ops_of : ℕ → Fleet → List Op
ops_of id s = or_nothing (lookup id s.sent)

-- A connection, or the exception that it ends in.
abbrev pub LiveConnection : Type 0
LiveConnection = Device → Credential → Result Switch

-- A port of one switch, if it is an access point's and stuck.
unfoldable pub hit_of : List ((ℕ × Text) × ApLocation) → Job → PoePort → Option StuckHit
hit_of aps job p = elim (lookup (job.device.id, p.port) aps) [
  | none ↦ none
  | some ap ↦
      if is_stuck p (some ap.status)
      then some
          (record { device = job.device; cred = job.cred; spec = job.spec; port = p; ap = ap })
      else none
]

unfoldable pub hits_of : List ((ℕ × Text) × ApLocation) → Job → List PoePort → List StuckHit
unfolding hit_of
hits_of aps job [] = []
hits_of aps job (p ∷ ports) = cons_some (hit_of aps job p) (hits_of aps job ports)

module _ (connection : LiveConnection) (aps : List ((ℕ × Text) × ApLocation)) where
  -- An exception is logged, and gives no hits.
  unfoldable pub hits_in : Job → Result (List PoePort) → List StuckHit
  unfolding hits_of
  hits_in job (raised e) = []
  hits_in job (ok ports) = hits_of aps job ports

  unfoldable pub scan_connected : Job → Result Switch → Fleet → List StuckHit × Fleet
  unfolding hits_in
  scan_connected job (raised e) s = ([], s)
  scan_connected job (ok switch) s =
      let (result, ops) = scan_poe switch job.spec (ops_of job.device.id s) in
      (hits_in job result, record s { sent = insert job.device.id ops s.sent })

  unfoldable pub scan_job : Job → Fleet → List StuckHit × Fleet
  unfolding scan_connected
  scan_job job s = scan_connected job (connection job.device job.cred) s

  unfoldable pub scan_jobs : List Job → Fleet → List StuckHit × Fleet
  unfolding scan_job
  scan_jobs [] s = ([], s)
  scan_jobs (job ∷ jobs) s =
      let (hits, s1) = scan_job job s in let (more, s2) = scan_jobs jobs s1 in (hits ++ more, s2)

-- The tables that `collect_stuck` queries.
pub record Tables : Type 0 where
  pub devices : List Device
  pub links : List DeviceCredential
  pub credentials : List Credential
  pub ap_rows : List ApLocation

unfoldable pub collect_stuck : LiveConnection → Profiles → Tables → Fleet → List StuckHit × Fleet
unfolding jobs_of port_to_ap scan_jobs
collect_stuck connection profiles db =
    scan_jobs connection (port_to_ap [] db.ap_rows)
      (jobs_of profiles db.links db.credentials db.devices)

-- `by_device.setdefault(h.device.id, []).append(h)`
unfoldable pub add_to_group : StuckHit → List (ℕ × List StuckHit) → List (ℕ × List StuckHit)
add_to_group h [] = (h.device.id, h ∷ []) ∷ []
add_to_group h ((id, hits) ∷ groups) =
    if id == h.device.id then (id, hits ++ h ∷ []) ∷ groups else (id, hits) ∷ add_to_group h groups

unfoldable pub group_from : List (ℕ × List StuckHit) → List StuckHit → List (ℕ × List StuckHit)
group_from groups [] = groups
group_from groups (h ∷ hits) = group_from (add_to_group h groups) hits

abbrev pub by_device : List StuckHit → List (ℕ × List StuckHit)
by_device hits = group_from [] hits

-- When a recovery looks at the clock, and the time stamp of its event.
pub record Clock : Type 0 where
  pub now : Fleet → ℕ
  pub stamp : Fleet → ℕ

module _ (connection : LiveConnection) (clock : Clock) (actor : Text) where
  abbrev pub request_of : ℕ → StuckHit → Request
  request_of device_id h = record {
    device_id = device_id;
    port = h.port.port;
    ap_mac = some h.ap.ap_mac;
    ap_name = some h.ap.ap_name;
    actor = some actor;
  }

  -- The ports of one switch, one after the other over one connection.
  unfoldable pub recover_group :
      Switch → PoeControlSpec → ℕ → List StuckHit → Fleet → List PoeEvent × Fleet
  recover_group switch spec id [] s = ([], s)
  recover_group switch spec id (h ∷ hits) s =
      let before : Store = record { events = s.events; ops = ops_of id s } in
      let (event, after) =
        recover_with_policy switch spec (request_of id h) (clock.now s) (clock.stamp s) before in
      let s1 : Fleet = record { events = after.events; sent = insert id after.ops s.sent } in
      let (events, s2) = recover_group switch spec id hits s1 in (event ∷ events, s2)

  -- The loop over the switches. A connection that fails ends it, and the exception leaves.
  unfoldable pub recover_groups : List (ℕ × List StuckHit) → Action Fleet (List PoeEvent)
  recover_groups [] s = (ok [], s)
  recover_groups ((id, []) ∷ groups) s = recover_groups groups s
  recover_groups ((id, h ∷ hits) ∷ groups) s =
      and_then (connection h.device h.cred)
        (λ switch s0.
          let (events, s1) = recover_group switch h.spec h.device.id (h ∷ hits) s0 in
          and_then (recover_groups groups s1).0 (λ more. pure (events ++ more))
            (recover_groups groups s1).1)
        s

  unfoldable pub recover_hits : List StuckHit → Action Fleet (List PoeEvent)
  unfolding group_from recover_groups
  recover_hits hits = recover_groups (by_device hits)
