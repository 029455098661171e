-- ===== src/Discovery/Status.antt =====
-- The errors and the status of a run.
use netbuddy.Base.{
  ℕ, ◌+◌, ◌<◌, Text, ◌≡◌, ◌↔◌, refl, List, [], ◌∷◌, ◌++◌, append_assoc, append-nil, arith, keep,
  length, length-append, Option, none, some, if◌then◌else◌, Result, ok, raised, Exception,
  Bool-cases, inl, inr,
}
use netbuddy.Discovery.Tables.{Db, interface_cache}
use netbuddy.Discovery.Run.{Errors, noted, read_with, reads, read_all, status_of, run_discovery}
use netbuddy.Discovery.Rows.{
  Capability, read_system_info, read_interfaces, read_lldp, read_mac_table, read_arp, read_config,
  read_vpn_tunnels, configure_port_vlan, success, partial, failed, Adapter, DiscoveryRun,
}

abbrev exception_of : {A : Type 0} → Result A → Option Exception
exception_of (ok a) = none
exception_of (raised e) = some e

-- How a read of a discovery ends.
abbrev pub outcome : Adapter → Capability → Option Exception
outcome adapter read_system_info = exception_of adapter.system_info
outcome adapter read_interfaces = exception_of adapter.interfaces
outcome adapter read_lldp = exception_of adapter.lldp_neighbors
outcome adapter read_mac_table = exception_of adapter.mac_table
outcome adapter read_arp = exception_of adapter.arp
outcome adapter read_vpn_tunnels = exception_of adapter.vpn_tunnels
outcome adapter read_config = none
outcome adapter configure_port_vlan = none

abbrev failure : Capability → Option Exception → Errors
failure c none = []
failure c (some e) = (c, e) ∷ []

abbrev one : Option Exception → ℕ
one none = 1
one (some e) = 0

-- The reads among these that the adapter claims and that raise, and how many end well.
abbrev pub failures : Adapter → List Capability → Errors
failures adapter [] = []
failures adapter (c ∷ cs) =
    (if adapter.can c then failure c (outcome adapter c) else []) ++ failures adapter cs

abbrev pub answered : Adapter → List Capability → ℕ
answered adapter [] = 0
answered adapter (c ∷ cs) =
    (if adapter.can c then one (outcome adapter c) else 0) + answered adapter cs

failure-one : (c : Capability) (o : Option Exception) → length (failure c o) + one o ≡ 1
failure-one c none = refl
failure-one c (some e) = refl

failures-answered :
    (adapter : Adapter) (cs : List Capability)
    → length (failures adapter cs) + answered adapter cs ≡ length (keep adapter.can cs)
failures-answered adapter [] = refl
failures-answered adapter (c ∷ cs) = elim (Bool-cases (adapter.can c)) [
  | inl can ↦
      rw (can, length-append)
        (omega (arith, failure-one c (outcome adapter c), failures-answered adapter cs))
  | inr cannot ↦ rw cannot (omega (arith, failures-answered adapter cs))
]

noted-failure :
    {A : Type 0} (c : Capability) (answer : Result A) (store : A → Db → Db) (p : Db × Errors)
    → (noted c answer store p).1 ≡ p.1 ++ failure c (exception_of answer)
noted-failure c (ok a) store (s, errors) = simp append-nil
noted-failure c (raised e) store (s, errors) = refl

read_with-failure :
    {A : Type 0} (adapter : Adapter) (c : Capability) (answer : Result A) (store : A → Db → Db)
    (p : Db × Errors)
    → (read_with adapter c answer store p).1
      ≡ p.1 ++ (if adapter.can c then failure c (exception_of answer) else [])
unfolding read_with
read_with-failure adapter c answer store p = elim (Bool-cases (adapter.can c)) [
  | inl can ↦ rw can (noted-failure c answer store p)
  | inr cannot ↦ rw cannot (simp append-nil)
]

read_all-failures :
    (now : ℕ) (adapter : Adapter) (s : Db) → (read_all now adapter s).1 ≡ failures adapter reads
unfolding read_all
read_all-failures now adapter s = simp (read_with-failure, append_assoc, append-nil)

abbrev pub last_run : List DiscoveryRun → Option DiscoveryRun
last_run [] = none
last_run (r ∷ []) = some r
last_run (r ∷ q ∷ runs) = last_run (q ∷ runs)

last_run-append : (runs : List DiscoveryRun) (r : DiscoveryRun) → last_run (runs ++ r ∷ []) ≡ some r
last_run-append [] r = refl
last_run-append (p ∷ []) r = refl
last_run-append (p ∷ q ∷ runs) r = last_run-append (q ∷ runs) r

status_of_lem :
    (errors : Errors) (good attempted : ℕ)
    → length errors + good ≡ attempted
    → ((status_of errors attempted ≡ success) ↔ (length errors ≡ 0))
      × ((status_of errors attempted ≡ failed) ↔ ((0 < length errors) × (good ≡ 0)))
      × ((status_of errors attempted ≡ partial) ↔ ((0 < length errors) × (0 < good)))
unfolding status_of
status_of_lem [] good attempted h = ground arith
status_of_lem (e ∷ errors) good attempted h = ground arith

-- A run notes exactly the reads that the adapter claims and that raise, in the order of the reads;
-- it is a success when none does, a failure when some do and no read ends well, and partial when
-- some do and some end well; and it is the run that is stored last.
pub run_discovery-status :
    (now finished : ℕ) (triggered_by : Text) (adapter : Adapter) (s : Db)
    → (let (run, after) = run_discovery now finished triggered_by adapter s in
        let errors = failures adapter reads in
        let good = answered adapter reads in
        (run.errors ≡ errors)
        × ((run.status ≡ success) ↔ (length errors ≡ 0))
        × ((run.status ≡ failed) ↔ ((0 < length errors) × (good ≡ 0)))
        × ((run.status ≡ partial) ↔ ((0 < length errors) × (0 < good)))
        × (last_run after.runs ≡ some run))
unfolding run_discovery
run_discovery-status now finished triggered_by adapter s =
    let s0 : Db = record s { cache = interface_cache s.device.id s.interfaces } in
    let errors = read_all-failures now adapter s0 in
    let (good, bad, mixed) =
      status_of_lem (failures adapter reads) (answered adapter reads)
        (length (keep adapter.can reads)) (failures-answered adapter reads) in
    (
      errors,
      rw errors good,
      rw errors bad,
      rw errors mixed,
      last_run-append (read_all now adapter s0).0.runs _,
    )
