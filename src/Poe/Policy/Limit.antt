-- ===== src/Poe/Policy/Limit.antt =====
-- The rate limit over any sequence of recoveries, by the command line or by the UniFi controller.
use netbuddy.Base.{
  ℕ, ◌+◌, ◌≤◌, ◌<◌, ◌≡◌, Text, true, List, [], ◌∷◌, ◌++◌, arith, inl, inr, ◌↔◌, Bool-cases,
  list_beq_iff, count_if-append, nat_eq, list_eq, if◌then◌else◌, sym, refl, Bool, false, not, ◌&&◌,
  leb, ◌==◌,
}
use netbuddy.Poe.Policy.Audit.{recover_with_policy-audit, recover_unifi-audit}
use netbuddy.Profile.{PoeControlSpec}
use netbuddy.Hardware.{Op, Switch}
use netbuddy.Poe.Policy.{
  PoeAction, recovered, no_change, error, PoeEvent, Request, Store, PowerCycle, UnifiPort,
  is_attempt, is_recent, recover_max_attempts, skipped_ratelimit, recent_attempts,
  recover_with_policy, recover_unifi,
}

-- A recovery: what it acts on, when it looks at the clock, and the time that its event gets.
pub data Attempt : Type 0 where
  cli : Switch → PoeControlSpec → List Op → Request → (now stamp : ℕ) → Attempt
  unifi : PowerCycle → UnifiPort → Request → (now stamp : ℕ) → Attempt

abbrev pub time_of : Attempt → ℕ
time_of (cli switch spec ops r now stamp) = now
time_of (unifi power_cycle u r now stamp) = now

unfoldable pub attempt : Attempt → List PoeEvent → List PoeEvent
attempt (cli switch spec ops r now stamp) events =
    (recover_with_policy switch spec r now stamp (record { events = events; ops = ops })).1.events
attempt (unifi power_cycle u r now stamp) events =
    (recover_unifi power_cycle u r now stamp events).1

unfoldable pub attempts : List Attempt → List PoeEvent → List PoeEvent
attempts [] events = events
attempts (a ∷ later) events = attempts later (attempt a events)

-- The clock does not run backwards.
abbrev pub IsOrdered : ℕ → List Attempt → Type 0
IsOrdered from [] = Unit
IsOrdered from (a ∷ later) = (from ≤ time_of a) × IsOrdered (time_of a) later

-- At any later time, the code counts no more attempts of a port than its limit.
abbrev pub IsBelow : ℕ → List PoeEvent → Type 0
IsBelow now events =
    (t : ℕ) (device_id : ℕ) (port : Text)
    → now ≤ t
    → recent_attempts t device_id port events ≤ recover_max_attempts

is_recent_later :
    (now t device_id : ℕ) (port : Text) (e : PoeEvent)
    → now ≤ t
    → is_recent t device_id port e ≡ true
    → is_recent now device_id port e ≡ true
is_recent_later now t device_id port e h k = ground arith

recent_attempts_later :
    (now t device_id : ℕ) (port : Text) (events : List PoeEvent)
    → now ≤ t
    → recent_attempts t device_id port events ≤ recent_attempts now device_id port events
unfolding recent_attempts
recent_attempts_later now t device_id port [] h = omega arith
recent_attempts_later now t device_id port (e ∷ events) h = ground (
  arith,
  is_recent_later now t device_id port e,
  recent_attempts_later now t device_id port events h,
)

-- One more event counts at most once, and only for its own port.
recent_attempts-append :
    (t device_id : ℕ) (port : Text) (events : List PoeEvent) (e : PoeEvent)
    → recent_attempts t device_id port (events ++ e ∷ [])
      ≡ recent_attempts t device_id port events + (if is_recent t device_id port e then 1 else 0)
unfolding recent_attempts
recent_attempts-append t device_id port events e =
    omega (arith, count_if-append (is_recent t device_id port) events (e ∷ []))

is_recent_facts :
    (t device_id : ℕ) (port : Text) (e : PoeEvent)
    → is_recent t device_id port e ≡ true
    → (e.device_id ≡ device_id) × (e.port ≡ port) × (is_attempt e.action ≡ true)
is_recent_facts t device_id port e h = ground (arith, list_beq_iff e.port port)

IsBelow-append :
    (now : ℕ) (events : List PoeEvent) (e : PoeEvent)
    → IsBelow now events
    → (is_attempt e.action ≡ true
        → recent_attempts now e.device_id e.port events < recover_max_attempts)
    → IsBelow now (events ++ e ∷ [])
IsBelow-append now events e limited room t device_id port h =
    rw (recent_attempts-append t device_id port events e)
      (elim (Bool-cases (is_recent t device_id port e)) [
        | inl new ↦
            let (same_device, same_port, tried) = is_recent_facts t device_id port e new in
            let below = rw (same_device, same_port) at (room tried) in
            rw new (omega (arith, below, recent_attempts_later now t device_id port events h))
        | inr other ↦ rw other (omega (arith, limited t device_id port h))
      ])

IsBelow-record :
    (now device_id : ℕ) (port : Text) (events : List PoeEvent) (e : PoeEvent)
    → e.device_id ≡ device_id
    → e.port ≡ port
    → ((e.action ≡ skipped_ratelimit)
        ↔ (recover_max_attempts ≤ recent_attempts now device_id port events))
    → IsBelow now events
    → IsBelow now (events ++ e ∷ [])
IsBelow-record now device_id port events e same_device same_port skipped limited =
    IsBelow-append now events e limited (λ tried. rw (same_device, same_port) (ground arith))

attempt-IsBelow :
    (a : Attempt) (events : List PoeEvent)
    → IsBelow (time_of a) events
    → IsBelow (time_of a) (attempt a events)
unfolding attempt
attempt-IsBelow (cli switch spec ops r now stamp) events limited =
    let s : Store = record { events = events; ops = ops } in
    let (appended, device, port, skipped, _) =
      recover_with_policy-audit switch spec r now stamp s in
    rw appended (IsBelow-record now r.device_id r.port events _ device port skipped limited)
attempt-IsBelow (unifi power_cycle u r now stamp) events limited =
    let (appended, device, port, skipped) = recover_unifi-audit power_cycle u r now stamp events in
    rw appended (IsBelow-record now r.device_id r.port events _ device port skipped limited)

abbrev pub last_time : ℕ → List Attempt → ℕ
last_time from [] = from
last_time from (a ∷ later) = last_time (time_of a) later

attempts-IsBelow :
    (from : ℕ) (steps : List Attempt) (events : List PoeEvent)
    → IsOrdered from steps
    → IsBelow from events
    → IsBelow (last_time from steps) (attempts steps events)
unfolding attempts
attempts-IsBelow from [] events ordered limited = limited
attempts-IsBelow from (a ∷ later) events (after, ordered) limited =
    attempts-IsBelow (time_of a) later (attempt a events) ordered
      (attempt-IsBelow a events (λ t device_id port h. limited t device_id port (omega arith)))

-- What the limit promises, said of the table alone: how often a port was tried, whatever came of
-- it, in the thirty minutes before `t`.
abbrev is_skip : PoeAction → Bool
is_skip skipped_ratelimit = true
is_skip recovered = false
is_skip no_change = false
is_skip error = false

abbrev pub tries : ℕ → ℕ → Text → List PoeEvent → ℕ
tries t device_id port [] = 0
tries t device_id port (e ∷ events) =
    (if e.device_id == device_id
        && e.port == port
        && leb t (e.created_at + 1800)
        && not (is_skip e.action)
      then 1
      else 0)
    + tries t device_id port events

abbrev pub IsLimited : ℕ → List PoeEvent → Type 0
IsLimited now events =
    (t : ℕ) (device_id : ℕ) (port : Text) → now ≤ t → tries t device_id port events ≤ 3

is_attempt-is_skip : (a : PoeAction) → is_attempt a ≡ not (is_skip a)
is_attempt-is_skip skipped_ratelimit = refl
is_attempt-is_skip recovered = refl
is_attempt-is_skip no_change = refl
is_attempt-is_skip error = refl

recent_attempts-tries :
    (t device_id : ℕ) (port : Text) (events : List PoeEvent)
    → recent_attempts t device_id port events ≡ tries t device_id port events
unfolding recent_attempts
recent_attempts-tries t device_id port [] = refl
recent_attempts-tries t device_id port (e ∷ events) =
    rw (is_attempt-is_skip e.action) (ground (arith, recent_attempts-tries t device_id port events))

-- Whatever the switches and the controller answer and whatever time stamps the database writes: if
-- the clock does not run backwards and the limit holds of the table at first, then after any
-- sequence of recoveries, by a switch or by the controller, the limit holds again: at the time of
-- the last one and later, each port of each switch has at most three events that are no skips and
-- not older than thirty minutes.
pub attempts-IsLimited :
    (from : ℕ) (steps : List Attempt) (events : List PoeEvent)
    → IsOrdered from steps
    → IsLimited from events
    → IsLimited (last_time from steps) (attempts steps events)
attempts-IsLimited from steps events ordered limited t device_id port later =
    rw (sym (recent_attempts-tries t device_id port (attempts steps events))) (
      attempts-IsBelow from steps events ordered
        (λ u id p h. rw (recent_attempts-tries u id p events) (limited u id p h)) t device_id port
        later)
