-- ===== src/Poe/Worker/Rollback.antt =====
-- What the job's one transaction keeps when a later connection fails.
use netbuddy.Base.{
  ℕ, Text, ◌≡◌, ◌≢◌, refl, ◌∙◌, ◌<◌, false, List, [], ◌∷◌, arith, nat_eq, list_eq, ◌==◌, ok, raised,
  Exception, ap,
}
use netbuddy.Base.Dict.{insert, lookup-insert_self}
use netbuddy.Hardware.{Op, Switch}
use netbuddy.Poe.Bounce.{recover_port}
use netbuddy.Poe.Policy.{
  PoeEvent, Store, recover_max_attempts, recent_attempts, recover_with_policy,
}
use netbuddy.Poe.Fleet.{
  StuckHit, Fleet, or_nothing, ops_of, LiveConnection, add_to_group, group_from, Clock, request_of,
  recover_group, recover_groups, recover_hits,
}
use netbuddy.Poe.Worker.{close_session}

ops_of-insert :
    (id : ℕ) (ops : List Op) (events : List PoeEvent) (sent : List (ℕ × List Op))
    → ops_of id (record { events = events; sent = insert id ops sent }) ≡ ops
ops_of-insert id ops events sent = ap or_nothing (lookup-insert_self id ops sent)

-- Below the limit a recovery bounces the port.
recover_with_policy-ops :
    (switch : Switch) (h : StuckHit) (connection : LiveConnection) (clock : Clock) (actor : Text)
    (s : Store) (now stamp : ℕ)
    → recent_attempts now h.device.id h.port.port s.events < recover_max_attempts
    → (recover_with_policy switch h.spec
        (request_of connection clock actor h.device.id h)
        now
        stamp
        s).1.ops
      ≡ (recover_port switch h.spec h.port.port s.ops).1
unfolding recover_with_policy
recover_with_policy-ops switch h connection clock actor s now stamp few = ground arith

-- Two stuck ports on two switches, the first below the limit, the second's switch out of reach:
-- the job raises and keeps no event, although the first port was bounced.
pub recover_hits-rollback :
    (connection : LiveConnection) (clock : Clock) (actor : Text) (first second : StuckHit)
    (switch : Switch) (e : Exception) (s : Fleet)
    → first.device.id ≢ second.device.id
    → connection first.device first.cred ≡ ok switch
    → connection second.device second.cred ≡ raised e
    → recent_attempts (clock.now s) first.device.id first.port.port s.events < recover_max_attempts
    → (let (result, after) =
          close_session s (recover_hits connection clock actor (first ∷ second ∷ []) s) in
        (result ≡ raised e)
        × (after.events ≡ s.events)
        × (ops_of first.device.id after
            ≡ (recover_port switch first.spec first.port.port (ops_of first.device.id s)).1))
unfolding recover_hits add_to_group recover_groups recover_group close_session group_from
recover_hits-rollback connection clock actor first second switch e s other reached lost few =
    let apart : (first.device.id == second.device.id) ≡ false = ground arith in
    rw (apart, reached, lost)
      (
        refl,
        refl,
        ops_of-insert first.device.id _ s.events s.sent
            ∙ recover_with_policy-ops switch first connection clock actor
                (record { events = s.events; ops = ops_of first.device.id s }) (clock.now s)
                (clock.stamp s) few,
      )
