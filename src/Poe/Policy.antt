-- ===== src/Poe/Policy.antt =====
-- The rate limit and the audit trail of a recovery (backend/src/netbuddy/services/poe.py, and
-- `recover_unifi` of poe_recover.py). The `poe_event` table is a list, newest last. `now` is the
-- time that the code asks for, and `stamp` what the database writes as `created_at`.
pub mod Limit
pub mod Audit
use netbuddy.Base.{
  or_empty, ℕ, suc, ◌+◌, Text, text, Bool, true, false, ◌&&◌, List, [], ◌∷◌, ◌++◌, Option, none,
  some, leb, take, count_if, nat_eq, list_eq, ◌==◌, if◌then◌else◌, Result, ok, raised, Exception,
}
use netbuddy.Profile.{PoeControlSpec}
use netbuddy.Hardware.{Op, Switch}
use netbuddy.Poe.Bounce.{PoeRecoverResult, recover_port}

pub data PoeAction : Type 0 where
  recovered no_change error skipped_ratelimit : PoeAction

-- What the text `detail` of an event is printed from.
pub data Detail : Type 0 where
  rate_limited bounced power_cycled : Detail
  failed : Text → Detail

pub record PoeEvent : Type 0 where
  pub device_id : ℕ
  pub port : Text
  pub ap_mac : Option Text
  pub ap_name : Option Text
  pub action : PoeAction
  pub status_before : Option Text
  pub status_after : Option Text
  pub actor : Option Text
  pub detail : Detail
  pub created_at : ℕ

-- Who asks for a recovery, and of which access point.
pub record Request : Type 0 where
  pub device_id : ℕ
  pub port : Text
  pub ap_mac : Option Text
  pub ap_name : Option Text
  pub actor : Option Text

abbrev pub recover_max_attempts : ℕ
recover_max_attempts = 3

-- Thirty minutes, in seconds.
abbrev pub recover_window : ℕ
recover_window = 1800

-- `action in _RATE_LIMITED_ACTIONS`
abbrev pub is_attempt : PoeAction → Bool
is_attempt skipped_ratelimit = false
is_attempt _ = true

-- `created_at >= since`, with `since = now - RECOVER_WINDOW`.
abbrev pub is_recent : ℕ → ℕ → Text → PoeEvent → Bool
is_recent now device_id port e =
    e.device_id == device_id
    && e.port == port
    && leb now (e.created_at + recover_window)
    && is_attempt e.action

unfoldable pub recent_attempts : ℕ → ℕ → Text → List PoeEvent → ℕ
recent_attempts now device_id port events = count_if (is_recent now device_id port) events

-- The database's table, and what one switch was sent.
pub record Store : Type 0 where
  pub events : List PoeEvent
  pub ops : List Op

abbrev pub base_event : Request → ℕ → PoeAction → Detail → PoeEvent
base_event r stamp action detail = record {
  device_id = r.device_id;
  port = r.port;
  ap_mac = r.ap_mac;
  ap_name = r.ap_name;
  action = action;
  status_before = none;
  status_after = none;
  actor = r.actor;
  detail = detail;
  created_at = stamp;
}

abbrev pub skip_event : Request → ℕ → PoeEvent
skip_event r stamp = base_event r stamp skipped_ratelimit rate_limited

-- `str(exc)[:500]`
abbrev pub error_detail : Exception → Detail
error_detail e = failed (take 500 e.message)

unfoldable pub result_event : Request → ℕ → Result PoeRecoverResult → PoeEvent
result_event r stamp (ok result) =
    record (base_event r stamp (if result.recovered then recovered else no_change) bounced) {
      status_before = result.status_before;
      status_after = result.status_after;
    }
result_event r stamp (raised e) = base_event r stamp error (error_detail e)

abbrev pub add_event : PoeEvent → Store → PoeEvent × Store
add_event e s = (e, record s { events = s.events ++ e ∷ [] })

-- The event is returned and written on each path, and no exception leaves the function.
unfoldable pub recover_with_policy :
    Switch → PoeControlSpec → Request → (now stamp : ℕ) → Store → PoeEvent × Store
recover_with_policy switch spec r now stamp s =
    if leb recover_max_attempts (recent_attempts now r.device_id r.port s.events)
    then add_event (skip_event r stamp) s
    else (let (result, ops) = recover_port switch spec r.port s.ops in
        add_event (result_event r stamp result) (record s { ops = ops }))

-- A stuck port of a UniFi switch, and the controller's call that cuts its power for a moment.
abbrev pub PowerCycle : Type 0
PowerCycle = (site switch_mac : Text) (port_idx : ℕ) → Result (Unit {0})

pub record UnifiPort : Type 0 where
  pub site : Option Text
  pub switch_mac : Option Text
  pub port_idx : Option ℕ

abbrev or_zero : Option ℕ → ℕ
or_zero none = 0
or_zero (some n) = n

-- `power_cycle(local_cred, cand.site or "", cand.switch_mac or "", cand.port_idx or 0)`
unfoldable pub unifi_call : PowerCycle → UnifiPort → Result (Unit {0})
unifi_call power_cycle u =
    power_cycle (or_empty u.site) (or_empty u.switch_mac) (or_zero u.port_idx)

unfoldable pub unifi_event : Request → ℕ → Result (Unit {0}) → PoeEvent
unifi_event r stamp (ok _) = record (base_event r stamp recovered power_cycled) {
  ap_mac = none;
  status_before = some (text "poe_fault");
}
unifi_event r stamp (raised e) = record (base_event r stamp error (error_detail e)) {
  ap_mac = none;
  ap_name = none;
}

unfoldable pub recover_unifi :
    PowerCycle → UnifiPort → Request → (now stamp : ℕ) → List PoeEvent → PoeEvent × List PoeEvent
recover_unifi power_cycle u r now stamp events =
    let skipped = record (skip_event r stamp) { ap_mac = none } in
    let tried = unifi_event r stamp (unifi_call power_cycle u) in
    if leb recover_max_attempts (recent_attempts now r.device_id r.port events)
    then (skipped, events ++ skipped ∷ [])
    else (tried, events ++ tried ∷ [])
