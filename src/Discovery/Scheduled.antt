-- ===== src/Discovery/Scheduled.antt =====
-- The discovery of all devices (`run_scheduled_discovery` of
-- backend/src/netbuddy/services/discovery.py).
use netbuddy.Base.{
  ℕ, ◌+◌, Text, text, true, false, ◌≡◌, ◌∙◌, ap, Bool, not, ◌&&◌, List, [], ◌∷◌, ◌++◌, append_assoc,
  append-nil, sym, arith, length, length-append, nat_eq, ◌==◌, if◌then◌else◌, Result, ok, raised,
  Exception,
}
use netbuddy.Inventory.{
  Device, Credential, CredentialProtocol, ssh, snmp, api, DeviceCredential, object_of,
  replace_device,
}
use netbuddy.Discovery.Rows.{Adapter}
use netbuddy.Discovery.Tables.{Db}
use netbuddy.Discovery.Run.{run_discovery}
use netbuddy.Discovery.Keys.{InterfaceKey, keys_of}
use netbuddy.Discovery.Grows.{HasDistinctNames}
use netbuddy.Discovery.Reads.{run_discovery-interfaces}

abbrev is_ssh : CredentialProtocol → Bool
is_ssh ssh = true
is_ssh snmp = false
is_ssh api = false

-- The rows of the query: devices in use, by their links over SSH, with the credential.
abbrev with_credential : Device → ℕ → List Credential → List (Device × Credential)
with_credential d id [] = []
with_credential d id (c ∷ credentials) =
    let rest = with_credential d id credentials in
    if c.id == id && not c.deleted then (d, c) ∷ rest else rest

abbrev by_links : List Credential → Device → List DeviceCredential → List (Device × Credential)
by_links credentials d [] = []
by_links credentials d (l ∷ links) =
    let rest = by_links credentials d links in
    if l.device_id == d.id && is_ssh l.protocol && not l.deleted
    then with_credential d l.credential_id credentials ++ rest
    else rest

unfoldable pub pairs_of :
    List Device → List DeviceCredential → List Credential → List (Device × Credential)
pairs_of [] links credentials = []
pairs_of (d ∷ devices) links credentials =
    let rest = pairs_of devices links credentials in
    if d.enabled && not d.deleted then by_links credentials d links ++ rest else rest

-- The tables, the objects of the devices, and the lists that the loop fills.
pub record Schedule : Type 0 where
  pub db : Db
  pub devices : List Device
  pub ok_hosts : List Text
  pub errors : List (Text × Exception)

module _ (provider : Device → Credential → Result Adapter) (now : ℕ) where
  abbrev pub run_with : Device → Result Adapter → Schedule → Schedule
  run_with d (raised e) s = record s { errors = s.errors ++ (d.hostname, e) ∷ [] }
  run_with d (ok adapter) s =
      let (run, db) =
        run_discovery now now (text "scheduled") adapter (record s.db { device = d }) in
      record s {
        db = db;
        devices = replace_device db.device s.devices;
        ok_hosts = s.ok_hosts ++ d.hostname ∷ [];
      }

  unfoldable pub run_pairs : List (Device × Credential) → Schedule → Schedule
  run_pairs [] s = s
  run_pairs ((device, credential) ∷ pairs) s =
      let d = object_of device s.devices in run_pairs pairs (run_with d (provider d credential) s)

  -- The number of pairs, and what the loop leaves.
  unfoldable pub run_scheduled_discovery :
      List DeviceCredential → List Credential → (devices : List Device) → Db → ℕ × Schedule
  unfolding pairs_of run_pairs
  run_scheduled_discovery links credentials devices db =
      let pairs = pairs_of devices links credentials in
      (
        length pairs,
        run_pairs pairs (record { db = db; devices = devices; ok_hosts = []; errors = [] }),
      )

  -- The database after some pairs, and how many hosts went well and wrong.
  record Extends (n : ℕ) (s t : Schedule) : Type 0 where
    counted : length t.ok_hosts + length t.errors ≡ (length s.ok_hosts + length s.errors) + n
    added : List InterfaceKey
    rows : keys_of t.db.interfaces ≡ keys_of s.db.interfaces ++ added
    distinct : HasDistinctNames (keys_of t.db.interfaces)

  run_with-Extends :
      (d : Device) (answer : Result Adapter) (s : Schedule)
      → HasDistinctNames (keys_of s.db.interfaces)
      → Extends 1 s (run_with d answer s)
  run_with-Extends d (raised e) s h = record {
    counted = rw length-append (omega arith);
    added = [];
    rows = sym (append-nil (keys_of s.db.interfaces));
    distinct = h;
  }
  run_with-Extends d (ok adapter) s h =
      let (added, rows, active, distinct) =
        run_discovery-interfaces now now (text "scheduled") adapter (record s.db { device = d })
          h in
      record {
        counted = rw length-append (omega arith);
        added = added;
        rows = rows;
        distinct = distinct;
      }

  run_pairs-Extends :
      (pairs : List (Device × Credential)) (s : Schedule)
      → HasDistinctNames (keys_of s.db.interfaces)
      → Extends (length pairs) s (run_pairs pairs s)
  unfolding run_pairs
  run_pairs-Extends [] s h = record {
    counted = omega arith;
    added = [];
    rows = sym (append-nil (keys_of s.db.interfaces));
    distinct = h;
  }
  run_pairs-Extends ((device, credential) ∷ pairs) s h =
      let d = object_of device s.devices in
      let a = run_with-Extends d (provider d credential) s h in
      let b = run_pairs-Extends pairs (run_with d (provider d credential) s) a.distinct in
      record {
        counted = omega (arith, a.counted, b.counted);
        added = a.added ++ b.added;
        rows =
            b.rows
            ∙ ap (λ l. l ++ b.added) a.rows
            ∙ append_assoc (keys_of s.db.interfaces) a.added b.added;
        distinct = b.distinct;
      }

-- A scheduled discovery accounts for each device and credential, as gone well or as an error,
-- whatever the devices answer; it never changes the identity of an interface, and where no two
-- active interfaces of one device have the same name, it keeps it so.
pub run_scheduled_discovery-counted :
    (provider : Device → Credential → Result Adapter) (now : ℕ) (links : List DeviceCredential)
    (credentials : List Credential) (devices : List Device) (db : Db)
    → HasDistinctNames (keys_of db.interfaces)
    → (let (pairs, after) = run_scheduled_discovery provider now links credentials devices db in
        (length after.ok_hosts + length after.errors ≡ pairs)
        × ((added : List InterfaceKey) × (keys_of after.db.interfaces
              ≡ keys_of db.interfaces ++ added))
        × HasDistinctNames (keys_of after.db.interfaces))
unfolding run_scheduled_discovery
run_scheduled_discovery-counted provider now links credentials devices db h =
    let e =
      run_pairs-Extends provider now (pairs_of devices links credentials)
        (record { db = db; devices = devices; ok_hosts = []; errors = [] }) h in
    (omega (arith, e.counted), (e.added, e.rows), e.distinct)
