-- ===== src/Poe/Examples.antt =====
-- Two switches with an access point each, both stuck, and the theorems of the recovery there.
use netbuddy.Base.{
  ℕ, ◌≤◌, Text, text, lower_char, ◌≡◌, refl, true, false, none, some, List, [], ◌∷◌, ◌++◌, map,
  arith, Result, ok, raised, Exception, nat_eq, list_eq, ◌==◌, if◌then◌else◌, ◌↔◌, ◌⊎◌, splitlines,
}
use mathlib.Core.List.{Perm}
use netbuddy.Base.Dict.{lookup}
use netbuddy.Inventory.{Device, switch, Credential, DeviceCredential, ssh}
use netbuddy.Profile.{default_poe_spec}
use netbuddy.Poe.Port.{PoePort, is_stuck, delivering, faulted, searching}
use netbuddy.Poe.Port.Stuck.{is_stuck_iff, delivering-not_stuck}
use netbuddy.Poe.Parse.{parse_dell_os6_power, parse_dell_os6_link}
use netbuddy.Poe.Parse.Tables.{last_power, last_link, parse-last}
use netbuddy.Poe.Bounce.{recover_port}
use netbuddy.Poe.Policy.{
  PoeEvent, recovered, bounced, result_event, recover_max_attempts, recent_attempts, Store,
  recover_with_policy, recover_unifi, skipped_ratelimit,
}
use netbuddy.Poe.Policy.Audit.{recover_with_policy-audit, recover_unifi-audit}
use netbuddy.Poe.Fleet.{
  ApLocation, StuckHit, Profiles, Tables, Fleet, LiveConnection, Clock, ops_of, job_of,
  credential_of, add_to_group, recover_group, collect_stuck, recover_hits,
}
use netbuddy.Poe.Fleet.Recover.{key_of_event, key_of_hit, recover_hits-perm}
use netbuddy.Poe.Worker.{close_session}
use netbuddy.Poe.Worker.Rollback.{recover_hits-rollback}
use netbuddy.Poe.Tests.{power_output, small_switch, port7, request7, power_cycle, no_port, program}

abbrev adapter : Text
adapter = text "dell_os6"

abbrev device : ℕ → Device
device id = record {
  id = id;
  site_id = none;
  hostname = text "sw";
  mgmt_ip = text "10.0.0.1";
  vendor = text "dell";
  model = none;
  os_version = none;
  serial_number = none;
  device_type = switch;
  adapter_id = adapter;
  enabled = true;
  last_seen = none;
  deleted = false;
}

abbrev credential : Credential
credential = record {
  id = 7;
  name = text "admin";
  base_url = none;
  api_token = none;
  deleted = false;
}

abbrev link_of : ℕ → DeviceCredential
link_of id = record { device_id = id; credential_id = 7; protocol = ssh; deleted = false }

abbrev ap_at : ℕ → ApLocation
ap_at id = record {
  ap_mac = text "aabbccddee01";
  ap_name = text "hall";
  status = text "offline";
  device_id = some id;
  port = some port7;
}

abbrev profiles : Profiles
profiles = (adapter, some default_poe_spec) ∷ []

abbrev tables : Tables
tables = record {
  devices = device 1 ∷ device 2 ∷ [];
  links = link_of 1 ∷ link_of 2 ∷ [];
  credentials = credential ∷ [];
  ap_rows = ap_at 1 ∷ ap_at 2 ∷ [];
}

abbrev new_fleet : Fleet
new_fleet = record { events = []; sent = [] }

abbrev all_up : LiveConnection
all_up device cred = ok small_switch

abbrev out_of_reach : Exception
out_of_reach = record { type_name = text "OSError"; message = text "no route" }

-- The second switch is out of reach.
abbrev first_up : LiveConnection
first_up device cred = if device.id == 1 then ok small_switch else raised out_of_reach

abbrev stuck_port : PoePort
stuck_port = record {
  port = port7;
  poe_state = some (text "auto");
  poe_status = text "Fault";
  poe_class = some (text "Unknown/Unknown");
  power_mw = none;
  link_up = some false;
}

abbrev hit_at : ℕ → StuckHit
hit_at id = record {
  device = device id;
  cred = credential;
  spec = default_poe_spec;
  port = stuck_port;
  ap = ap_at id;
}

abbrev clock : Clock
clock = record { now = λ s. 100; stamp = λ s. 100 }

abbrev event_at : ℕ → PoeEvent
event_at id = record {
  device_id = id;
  port = port7;
  ap_mac = some (text "aabbccddee01");
  ap_name = some (text "hall");
  action = recovered;
  status_before = some (text "Fault");
  status_after = some (text "On");
  actor = some (text "worker");
  detail = bounced;
  created_at = 100;
}

is_stuck_iff_example : (is_stuck stuck_port (some (text "offline")) ≡ true) ↔ (
    (some (text "offline") ≡ some (text "offline"))
    × (stuck_port.link_up ≡ some false)
    × ((faulted stuck_port ≡ true) ⊎ (searching stuck_port ≡ true)))
is_stuck_iff_example = is_stuck_iff stuck_port (some (text "offline"))

abbrev powered_port : PoePort
powered_port = record stuck_port { poe_status = text "On" }

delivering-not_stuck_example : is_stuck powered_port (some (text "offline")) ≡ false
unfolding delivering lower_char
delivering-not_stuck_example = delivering-not_stuck powered_port (some (text "offline")) refl

parse-last_example :
    (lookup port7 (parse_dell_os6_power power_output) ≡ last_power port7 (splitlines power_output))
    × (lookup port7 (parse_dell_os6_link power_output) ≡ last_link port7 (splitlines power_output))
parse-last_example = parse-last power_output port7

abbrev empty_store : Store
empty_store = record { events = []; ops = [] }

abbrev policy_run : PoeEvent × Store
policy_run = recover_with_policy small_switch default_poe_spec request7 100 100 empty_store

recover_with_policy-audit_example :
    (policy_run.1.events ≡ [] ++ policy_run.0 ∷ [])
    × (policy_run.0.device_id ≡ 1)
    × (policy_run.0.port ≡ port7)
    × ((policy_run.0.action ≡ skipped_ratelimit)
        ↔ (recover_max_attempts ≤ recent_attempts 100 1 port7 []))
    × (recover_max_attempts ≤ recent_attempts 100 1 port7 [] → policy_run.1.ops ≡ [])
recover_with_policy-audit_example =
    recover_with_policy-audit small_switch default_poe_spec request7 100 100 empty_store

abbrev unifi_run : PoeEvent × List PoeEvent
unifi_run = recover_unifi power_cycle no_port request7 100 100 []

recover_unifi-audit_example :
    (unifi_run.1 ≡ [] ++ unifi_run.0 ∷ [])
    × (unifi_run.0.device_id ≡ 1)
    × (unifi_run.0.port ≡ port7)
    × ((unifi_run.0.action ≡ skipped_ratelimit)
        ↔ (recover_max_attempts ≤ recent_attempts 100 1 port7 []))
recover_unifi-audit_example = recover_unifi-audit power_cycle no_port request7 100 100 []

test_collect : (collect_stuck all_up profiles tables new_fleet).0 ≡ hit_at 1 ∷ hit_at 2 ∷ []
unfolding program collect_stuck job_of credential_of is_stuck faulted
test_collect = refl

abbrev hits : List StuckHit
hits = hit_at 1 ∷ hit_at 2 ∷ []

abbrev events : List PoeEvent
events = event_at 1 ∷ event_at 2 ∷ []

recover_hits-perm_example :
    ((recover_hits all_up clock (text "worker") hits new_fleet).1.events ≡ [] ++ events)
    × Perm (map key_of_event events) (map key_of_hit hits)
unfolding program recover_hits add_to_group recover_group recover_with_policy recent_attempts
    result_event
recover_hits-perm_example =
    recover_hits-perm all_up clock (text "worker") hits new_fleet events refl

abbrev failed_job : Result (List PoeEvent) × Fleet
failed_job = close_session new_fleet (recover_hits first_up clock (text "worker") hits new_fleet)

recover_hits-rollback_example :
    (failed_job.0 ≡ raised out_of_reach)
    × (failed_job.1.events ≡ [])
    × (ops_of 1 failed_job.1 ≡ (recover_port small_switch default_poe_spec port7 []).1)
unfolding recent_attempts
recover_hits-rollback_example =
    recover_hits-rollback first_up clock (text "worker") (hit_at 1) (hit_at 2) small_switch
      out_of_reach new_fleet (λ e. omega arith) refl refl (omega arith)
