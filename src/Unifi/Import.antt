-- ===== src/Unifi/Import.antt =====
-- Devices of the UniFi cloud in the inventory (backend/src/netbuddy/services/unifi_inventory.py).
-- What the cloud answers and the sites of addresses are parameters. A row that a query gives is
-- named by what the query asks for. The primary keys and unique indexes of the tables hold at each
-- flush.
use netbuddy.Base.{
  ℕ, suc, ◌+◌, Text, text, lower, upper, is_infix, or_empty, Bool, true, false, not, ◌&&◌, ◌||◌,
  keep, length, List, [], ◌∷◌, ◌++◌, Option, none, some, or_else, nat_eq, list_eq, ◌==◌,
  if◌then◌else◌, contains, Action, Result, ok, raised, Exception, pure, and_then, ◌>>=◌, ◌>>◌,
}
use netbuddy.Base.Dict.{lookup, insert}
use netbuddy.Inventory.{Device, DeviceType, switch, ap, DeviceCredential, api}
use netbuddy.Locations.Cloud.{CloudDevice, CloudGroup, has_ap_model}
use netbuddy.Unifi.Raw.{str}

pub record UnifiHost : Type 0 where
  pub credential_id : ℕ
  pub host_id : Text
  pub name : Text
  pub enabled : Bool

pub record ImportSummary : Type 0 where
  pub created : ℕ
  pub updated : ℕ
  pub skipped_disabled : ℕ
  pub skipped_other : ℕ

abbrev is_ap_type : Text → Bool
is_ap_type type = contains type (text "uap" ∷ text "ap" ∷ [])

unfoldable pub classify : CloudDevice → Option DeviceType
classify dev =
    if not (or_empty dev.product_line == text "network")
    then none
    else (if is_infix (text "USW") (upper (or_empty dev.model))
          || lower (or_empty dev.type) == text "usw"
        then some switch
        else (if has_ap_model (or_empty dev.model) || is_ap_type (lower (or_empty dev.type))
            then some ap
            else none))

-- The hosts of a credential, by their ids.
abbrev pub hosts_from : ℕ → List (Text × UnifiHost) → List UnifiHost → List (Text × UnifiHost)
hosts_from credential_id table [] = table
hosts_from credential_id table (h ∷ hosts) =
    hosts_from credential_id
      (if h.credential_id == credential_id then insert h.host_id h table else table) hosts

-- `a or b`, of which neither may be empty.
abbrev pub or_given : Option Text → Option Text → Option Text
or_given (some (c ∷ s)) b = some (c ∷ s)
or_given _ (some (c ∷ s)) = some (c ∷ s)
or_given _ _ = none

-- The name of a host that is there is written over; `enabled` stays.
abbrev rename_host : Text → Text → List UnifiHost → List UnifiHost
rename_host hid name [] = []
rename_host hid name (h ∷ hosts) =
    (if h.host_id == hid then record h { name = name } else h) ∷ rename_host hid name hosts

abbrev has_host : Text → List UnifiHost → Bool
has_host hid [] = false
has_host hid (h ∷ hosts) = h.host_id == hid || has_host hid hosts

abbrev sync_host :
    ℕ → List (Text × UnifiHost) → CloudGroup → Option Text → List UnifiHost → List UnifiHost
sync_host credential_id existing g none hosts = hosts
sync_host credential_id existing g (some hid) hosts =
    let name = or_empty (or_given g.host_name (some hid)) in
    elim (lookup hid existing) [
      | none ↦
          hosts
          ++ record { credential_id = credential_id; host_id = hid; name = name; enabled = true }
            ∷ []
      | some h ↦ rename_host hid name hosts
    ]

unfoldable pub sync_each :
    ℕ → List (Text × UnifiHost) → List CloudGroup → List UnifiHost → List UnifiHost
sync_each credential_id existing [] hosts = hosts
sync_each credential_id existing (g ∷ groups) hosts =
    sync_each credential_id existing groups
      (sync_host credential_id existing g (or_given g.host_id none) hosts)

-- Whether the unique index of host ids holds.
abbrev pub has_distinct_ids : List UnifiHost → Bool
has_distinct_ids [] = true
has_distinct_ids (h ∷ hosts) = not (has_host h.host_id hosts) && has_distinct_ids hosts

abbrev host_taken : Exception
host_taken = record { type_name = text "IntegrityError"; message = text "unifi_host_host_id_key" }

-- The table at the flush, which may refuse it. The hosts of the groups, which are given back as well,
-- are left out.
unfoldable pub sync_hosts : ℕ → List CloudGroup → List UnifiHost → Result (List UnifiHost)
unfolding sync_each
sync_hosts credential_id groups hosts =
    let synced = sync_each credential_id (hosts_from credential_id [] hosts) groups hosts in
    if has_distinct_ids synced then ok synced else raised host_taken

-- The tables and the summary while an import runs.
pub record Import : Type 0 where
  pub devices : List Device
  pub links : List DeviceCredential
  pub next_device : ℕ
  pub summary : ImportSummary

abbrev pub is_active : Text → Device → Bool
is_active name d = not d.deleted && d.hostname == name

abbrev pub is_link : ℕ → ℕ → DeviceCredential → Bool
is_link credential_id device_id l = l.device_id == device_id && l.credential_id == credential_id

abbrev multiple_results : Exception
multiple_results = record { type_name = text "MultipleResultsFound"; message = [] }

-- `ImportSummary()`
abbrev pub at_start : Import → Import
at_start s = record s {
  summary = record { created = 0; updated = 0; skipped_disabled = 0; skipped_other = 0 };
}

-- `scalar_one_or_none()`
abbrev pub one_or_none : {A : Type 0} → List A → Result (Option A)
one_or_none [] = ok none
one_or_none (x ∷ []) = ok (some x)
one_or_none (x ∷ y ∷ xs) = raised multiple_results

-- The change of the active device of a name.
abbrev pub change_named : Text → (Device → Device) → List Device → List Device
change_named name f [] = []
change_named name f (d ∷ devices) =
    if is_active name d then f d ∷ devices else d ∷ change_named name f devices

abbrev pub api_link : ℕ → ℕ → DeviceCredential
api_link credential_id device_id = record {
  device_id = device_id;
  credential_id = credential_id;
  protocol = api;
  deleted = false;
}

module _ (site_for_ip : Text → Option ℕ) (credential_id : ℕ) where
  abbrev pub new_device : ℕ → DeviceType → Text → Text → CloudDevice → Device
  new_device id dtype ip name dev = record {
    id = id;
    site_id = site_for_ip ip;
    hostname = name;
    mgmt_ip = ip;
    vendor = text "ubiquiti";
    model = dev.model;
    os_version = none;
    serial_number = none;
    device_type = dtype;
    adapter_id = text "unifi_cloud";
    enabled = true;
    last_seen = none;
    deleted = false;
  }

  abbrev pub changed : DeviceType → Text → CloudDevice → Device → Device
  changed dtype ip dev d = record d {
    mgmt_ip = ip;
    adapter_id = text "unifi_cloud";
    device_type = dtype;
    model = or_else (or_given dev.model none) d.model;
    site_id = or_else (site_for_ip ip) d.site_id;
  }

  abbrev pub create : DeviceType → Text → Text → CloudDevice → Import → Import
  create dtype ip name dev s = record s {
    devices = s.devices ++ new_device s.next_device dtype ip name dev ∷ [];
    links = s.links ++ api_link credential_id s.next_device ∷ [];
    next_device = suc s.next_device;
    summary = record s.summary { created = suc s.summary.created };
  }

  abbrev pub write_changes : DeviceType → Text → Text → CloudDevice → Import → Import
  write_changes dtype ip name dev s = record s {
    devices = change_named name (changed dtype ip dev) s.devices;
  }

  abbrev pub link_unless : ℕ → Option DeviceCredential → Import → Import
  link_unless device_id link s = record s {
    links = elim link [
      | none ↦ s.links ++ api_link credential_id device_id ∷ []
      | some l ↦ s.links
    ];
    summary = record s.summary { updated = suc s.summary.updated };
  }

  abbrev pub update : ℕ → Action Import (Unit {0})
  update device_id s =
      and_then (one_or_none (keep (is_link credential_id device_id) s.links))
        (λ link s. (ok tt, link_unless device_id link s)) s

  abbrev pub save :
      DeviceType → Text → Text → CloudDevice → Option Device → Action Import (Unit {0})
  save dtype ip name dev none s = (ok tt, create dtype ip name dev s)
  save dtype ip name dev (some d) s = update d.id (write_changes dtype ip name dev s)

  abbrev pub skip_other : Import → Import
  skip_other s = record s {
    summary = record s.summary { skipped_other = suc s.summary.skipped_other };
  }

  abbrev pub import_row :
      Option DeviceType → Option Text → Option Text → CloudDevice → Action Import (Unit {0})
  import_row (some dtype) (some ip) (some name) dev s =
      and_then (one_or_none (keep (is_active name) s.devices)) (save dtype ip name dev) s
  import_row _ _ _ dev s = (ok tt, skip_other s)

  unfoldable pub import_device : CloudDevice → Action Import (Unit {0})
  unfolding classify
  import_device dev =
      import_row (classify dev) (or_given dev.ip dev.ip_address) (or_given dev.name dev.mac) dev

  unfoldable pub import_all : List CloudDevice → Action Import (Unit {0})
  unfolding import_device
  import_all [] = pure tt
  import_all (dev ∷ devices) = import_device dev >> import_all devices

  abbrev pub skip_group : List CloudDevice → Import → Import
  skip_group devices s = record s {
    summary = record s.summary { skipped_disabled = s.summary.skipped_disabled + length devices };
  }

  abbrev pub is_on : Option UnifiHost → Bool
  is_on none = false
  is_on (some h) = h.enabled

  unfoldable pub import_groups :
      List (Text × UnifiHost) → List CloudGroup → Action Import (Unit {0})
  unfolding import_all
  import_groups hosts [] = pure tt
  import_groups hosts (g ∷ groups) =
      (if is_on (lookup (str g.host_id) hosts)
        then import_all g.devices
        else (λ s. (ok tt, skip_group g.devices s)))
      >> import_groups hosts groups

  unfoldable pub import_devices : List UnifiHost → List CloudGroup → Action Import ImportSummary
  unfolding import_groups
  import_devices hosts groups s =
      (import_groups (hosts_from credential_id [] hosts) groups >>= λ _ s. (ok s.summary, s))
        (at_start s)
