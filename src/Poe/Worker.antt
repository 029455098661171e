-- ===== src/Poe/Worker.antt =====
-- The unattended recovery: the stuck ports of UniFi switches and `auto_recover`
-- (backend/src/netbuddy/services/poe_recover.py, find_poe_faults of unifi_local.py), and the job of
-- backend/src/netbuddy/workers/poe_worker.py with its one transaction.
pub mod Rollback
use netbuddy.Base.{
  or_empty, ℕ, Text, text, lower, upper, decimal, is_infix, Bool, true, false, not, ◌&&◌, List, [],
  ◌∷◌, ◌++◌, cons_some, Option, none, some, or_else, nat_eq, list_eq, ◌==◌, if◌then◌else◌, Action,
  Result, ok, raised, pure, and_then,
}
use netbuddy.Base.Dict.{lookup, insert}
use netbuddy.Inventory.{Device, Credential}
use netbuddy.Inventory.Switches.{resolve}
use netbuddy.Unifi.{UnifiSwitchPort, UnifiDevice}
use netbuddy.Poe.Policy.{PoeEvent, Request, PowerCycle, UnifiPort, recover_unifi}
use netbuddy.Poe.Fleet.{
  ApLocation, Profiles, Fleet, LiveConnection, Tables, collect_stuck, Clock, recover_hits,
}

pub record PoeFault : Type 0 where
  pub site : Text
  pub switch_mac : Text
  pub switch_name : Option Text
  pub switch_ip : Option Text
  pub port_idx : ℕ
  pub port_name : Option Text

abbrev fault_of : UnifiDevice → UnifiSwitchPort → Option PoeFault
fault_of d p =
    if p.poe_enable && not p.poe_good
    then some (record {
      site = d.site;
      switch_mac = d.mac;
      switch_name = d.name;
      switch_ip = d.ip;
      port_idx = p.port_idx;
      port_name = p.name;
    })
    else none

abbrev faults_of : UnifiDevice → List UnifiSwitchPort → List PoeFault
faults_of d [] = []
faults_of d (p ∷ ports) = cons_some (fault_of d p) (faults_of d ports)

unfoldable pub find_poe_faults : List UnifiDevice → List PoeFault
find_poe_faults [] = []
find_poe_faults (d ∷ devices) =
    (if d.type == text "usw" then faults_of d d.poe_ports else []) ++ find_poe_faults devices

pub record StuckCandidate : Type 0 where
  pub device_id : ℕ
  pub hostname : Text
  pub port : Text
  pub switch_mac : Option Text
  pub site : Option Text
  pub port_idx : Option ℕ

abbrev candidate_of : List Device → PoeFault → Option StuckCandidate
candidate_of devices f = elim (resolve devices f.switch_name f.switch_ip) [
  | none ↦ none
  | some d ↦ some (record {
    device_id = d.id;
    hostname = d.hostname;
    port = decimal f.port_idx;
    switch_mac = some f.switch_mac;
    site = some f.site;
    port_idx = some f.port_idx;
  })
]

unfoldable pub collect_unifi_stuck : List Device → List PoeFault → List StuckCandidate
unfolding decimal
collect_unifi_stuck devices [] = []
collect_unifi_stuck devices (f ∷ faults) =
    cons_some (candidate_of devices f) (collect_unifi_stuck devices faults)

-- `base_url.ilike("%api.ui.com%")`
abbrev is_cloud : Credential → Bool
is_cloud c = not c.deleted && is_infix (text "api.ui.com") (lower (or_empty c.base_url))

abbrev is_local : Credential → Bool
is_local c = not c.deleted && c.name == text "UnifiLocal"

abbrev first_of_kind : (Credential → Bool) → List Credential → Option Credential
first_of_kind p [] = none
first_of_kind p (c ∷ cs) = if p c then some c else first_of_kind p cs

unfoldable pub cloud_credential : List Credential → Option Credential
cloud_credential credentials = first_of_kind is_cloud credentials

unfoldable pub local_credential : List Credential → Option Credential
local_credential credentials = first_of_kind is_local credentials

-- What lies outside: the connections, the controllers, and the refresh of the access points'
-- locations (`build_ap_locations`), each of which may raise.
pub record Outside : Type 0 where
  pub connection : LiveConnection
  pub refresh : Credential → Result (List ApLocation)
  pub fetch : Credential → Result (List UnifiDevice)
  pub power_cycle : PowerCycle
  pub clock : Clock

module _ (outside : Outside) (actor : Text) where
  abbrev unifi_request : StuckCandidate → Request
  unifi_request c = record {
    device_id = c.device_id;
    port = c.port;
    ap_mac = none;
    ap_name = none;
    actor = some actor;
  }

  recover_candidates : List StuckCandidate → Fleet → List PoeEvent × Fleet
  recover_candidates [] s = ([], s)
  recover_candidates (c ∷ candidates) s =
      let u : UnifiPort = record {
        site = c.site;
        switch_mac = c.switch_mac;
        port_idx = c.port_idx;
      } in
      let (event, events) =
        recover_unifi outside.power_cycle u (unifi_request c) (outside.clock.now s)
          (outside.clock.stamp s) s.events in
      let (more, s') = recover_candidates candidates (record s { events = events }) in
      (event ∷ more, s')

  cli_part : Profiles → Tables → Option Credential → Action Fleet (List PoeEvent)
  cli_part profiles db none s = (ok [], s)
  cli_part profiles db (some cloud) s =
      and_then (outside.refresh cloud)
        (λ ap_rows s0.
          let (hits, s1) =
            collect_stuck outside.connection profiles (record db { ap_rows = ap_rows }) s0 in
          recover_hits outside.connection outside.clock actor hits s1)
        s

  unifi_part : Tables → Option Credential → Action Fleet (List PoeEvent)
  unfolding recover_candidates
  unifi_part db none s = (ok [], s)
  unifi_part db (some local) s =
      and_then (outside.fetch local)
        (λ devices s0.
          let (events, s1) =
            recover_candidates (collect_unifi_stuck db.devices (find_poe_faults devices)) s0 in
          (ok events, s1))
        s

  unfoldable pub auto_recover : Profiles → Tables → Action Fleet (List PoeEvent)
  unfolding cli_part unifi_part
  auto_recover profiles db s =
      let (first, s1) = cli_part profiles db (cloud_credential db.credentials) s in
      and_then first
        (λ events s2.
          let (second, s3) = unifi_part db (local_credential db.credentials) s2 in
          and_then second (λ more. pure (events ++ more)) s3)
        s1

-- The end of the job's session: a commit, or, when an exception leaves it, a rollback of the
-- table. What the switches were sent stays sent.
unfoldable pub close_session :
    Fleet → Result (List PoeEvent) × Fleet → Result (List PoeEvent) × Fleet
close_session before (ok events, after) = (ok events, after)
close_session before (raised e, after) = (raised e, record after { events = before.events })

unfoldable pub scheduled_poe_recover : Outside → Profiles → Tables → Action Fleet (List PoeEvent)
unfolding close_session
scheduled_poe_recover outside profiles db s =
    close_session s (auto_recover outside (text "worker") profiles db s)
