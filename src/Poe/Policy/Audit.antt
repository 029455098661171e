-- ===== src/Poe/Policy/Audit.antt =====
-- Every recovery leaves exactly one event, and the limit keeps the hands off the switch.
use netbuddy.Base.{ℕ, ◌≡◌, ◌≤◌, List, [], ◌∷◌, ◌++◌, arith, ◌≢◌, Result, ok, raised, ◌↔◌}
use netbuddy.Profile.{PoeControlSpec}
use netbuddy.Hardware.{Switch}
use netbuddy.Poe.Bounce.{PoeRecoverResult, recover_port}
use netbuddy.Poe.Policy.{
  PoeEvent, Request, Store, skipped_ratelimit, result_event, recover_max_attempts, recent_attempts,
  recover_with_policy, PowerCycle, UnifiPort, unifi_event, unifi_call, recover_unifi,
}

pub result_event_names :
    (r : Request) (stamp : ℕ) (result : Result PoeRecoverResult)
    → ((result_event r stamp result).device_id ≡ r.device_id)
      × ((result_event r stamp result).port ≡ r.port)
      × ((result_event r stamp result).action ≢ skipped_ratelimit)
unfolding result_event
result_event_names r stamp (ok result) = ground arith
result_event_names r stamp (raised e) = ground arith

-- A recovery appends exactly the event that it returns, which names the port asked for; it reports
-- `skipped_ratelimit` exactly when the limit is reached, and then sends the switch nothing.
pub recover_with_policy-audit :
    (switch : Switch) (spec : PoeControlSpec) (r : Request) (now stamp : ℕ) (s : Store)
    → ((recover_with_policy switch spec r now stamp s).1.events
        ≡ s.events ++ (recover_with_policy switch spec r now stamp s).0 ∷ [])
      × ((recover_with_policy switch spec r now stamp s).0.device_id ≡ r.device_id)
      × ((recover_with_policy switch spec r now stamp s).0.port ≡ r.port)
      × (((recover_with_policy switch spec r now stamp s).0.action ≡ skipped_ratelimit)
          ↔ (recover_max_attempts ≤ recent_attempts now r.device_id r.port s.events))
      × (recover_max_attempts ≤ recent_attempts now r.device_id r.port s.events
          → (recover_with_policy switch spec r now stamp s).1.ops ≡ s.ops)
unfolding recover_with_policy
recover_with_policy-audit switch spec r now stamp s =
    ground (arith, result_event_names r stamp (recover_port switch spec r.port s.ops).0)

unifi_event_names :
    (r : Request) (stamp : ℕ) (result : Result (Unit {0}))
    → ((unifi_event r stamp result).device_id ≡ r.device_id)
      × ((unifi_event r stamp result).port ≡ r.port)
      × ((unifi_event r stamp result).action ≢ skipped_ratelimit)
unfolding unifi_event
unifi_event_names r stamp (ok result) = ground arith
unifi_event_names r stamp (raised e) = ground arith

-- A recovery by the UniFi controller appends exactly the event that it returns, which names the port
-- asked for; it reports `skipped_ratelimit` exactly when the limit is reached.
pub recover_unifi-audit :
    (power_cycle : PowerCycle) (u : UnifiPort) (r : Request) (now stamp : ℕ)
    (events : List PoeEvent)
    → ((recover_unifi power_cycle u r now stamp events).1
        ≡ events ++ (recover_unifi power_cycle u r now stamp events).0 ∷ [])
      × ((recover_unifi power_cycle u r now stamp events).0.device_id ≡ r.device_id)
      × ((recover_unifi power_cycle u r now stamp events).0.port ≡ r.port)
      × (((recover_unifi power_cycle u r now stamp events).0.action ≡ skipped_ratelimit)
          ↔ (recover_max_attempts ≤ recent_attempts now r.device_id r.port events))
unfolding recover_unifi
recover_unifi-audit power_cycle u r now stamp events =
    ground (arith, unifi_event_names r stamp (unifi_call power_cycle u))
