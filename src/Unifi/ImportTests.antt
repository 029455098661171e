-- ===== src/Unifi/ImportTests.antt =====
-- An import of two hosts, of which one is switched off, and the theorem there.
use netbuddy.Base.{
  ℕ, Text, text, true, false, count_if-le-length, length, List, [], ◌∷◌, Option, none, some, ◌≡◌,
  refl, ok, arith, upper_char, lower_char, ◌+◌,
}
use netbuddy.Inventory.{Device, switch}
use netbuddy.Locations.Cloud.{CloudDevice, CloudGroup}
use netbuddy.Unifi.Import.{
  UnifiHost, ImportSummary, Import, is_active, is_link, api_link, import_devices, sync_hosts,
}
use netbuddy.Unifi.Done.{total, IsReady}
use netbuddy.Unifi.Imported.{devices_of, import_devices-counted}

abbrev cloud : Text → Text → Text → CloudDevice
cloud model name ip = record {
  product_line = some (text "network");
  model = some model;
  type = none;
  mac = none;
  name = some name;
  status = none;
  ip = some ip;
  ip_address = none;
}

abbrev group : Text → List CloudDevice → CloudGroup
group id devices = record { host_id = some id; host_name = none; devices = devices }

abbrev groups : List CloudGroup
groups =
    group (text "h1") (
      cloud (text "USW-24") (text "core") (text "10.0.0.2")
      ∷ cloud (text "U6-LR") (text "hall") (text "10.0.0.3")
      ∷ cloud (text "G4") (text "door") (text "10.0.0.4")
      ∷ [])
    ∷ group (text "h2") (cloud (text "USW-8") (text "remote") (text "10.9.0.2") ∷ [])
    ∷ []

abbrev host : Text → UnifiHost
host id = record { credential_id = 7; host_id = id; name = id; enabled = true }

abbrev hosts : List UnifiHost
hosts = host (text "h1") ∷ record (host (text "h2")) { enabled = false } ∷ []

abbrev core : Device
core = record {
  id = 1;
  site_id = some 3;
  hostname = text "core";
  mgmt_ip = text "10.0.0.1";
  vendor = text "ubiquiti";
  model = none;
  os_version = none;
  serial_number = none;
  device_type = switch;
  adapter_id = text "unifi_cloud";
  enabled = true;
  last_seen = none;
  deleted = false;
}

abbrev before : Import
before = record {
  devices = core ∷ [];
  links = api_link 7 1 ∷ [];
  next_device = 2;
  summary = record { created = 0; updated = 0; skipped_disabled = 0; skipped_other = 0 };
}

abbrev no_site : Text → Option ℕ
no_site ip = none

-- A host that is switched off stays off when the hosts are read again.
keeps_switched_off : sync_hosts 7 groups hosts ≡ ok hosts
unfolding sync_hosts
keeps_switched_off = refl

imports_two :
    (import_devices no_site 7 hosts groups before).0
    ≡ ok (record { created = 1; updated = 1; skipped_disabled = 1; skipped_other = 1 })
unfolding import_devices upper_char lower_char
imports_two = refl

before-IsReady : IsReady no_site 7 before
before-IsReady = (
  λ name. count_if-le-length (is_active name) before.devices,
  λ id. count_if-le-length (is_link 7 id) before.links,
  λ id h. ground arith,
  (omega arith, tt),
)

import_devices-counted_example :
    (m : ImportSummary) × ((import_devices no_site 7 hosts groups before).0 ≡ ok m)
    × (total m ≡ devices_of no_site 7 groups)
    × (length (import_devices no_site 7 hosts groups before).1.devices ≡ 1 + m.created)
    × IsReady no_site 7 (import_devices no_site 7 hosts groups before).1
import_devices-counted_example = import_devices-counted no_site 7 hosts groups before before-IsReady
