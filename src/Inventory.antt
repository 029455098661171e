-- ===== src/Inventory.antt =====
-- The rows of the database that several components read (backend/src/netbuddy/db/models). A row's
-- `deleted` tells whether `deleted_at` is set; identifiers are numbers.
pub mod Switches
use netbuddy.Base.{ℕ, Text, Bool, List, [], ◌∷◌, Option, nat_eq, ◌==◌, if◌then◌else◌}

pub data DeviceType : Type 0 where
  switch firewall router ap other : DeviceType

pub record Device : Type 0 where
  pub id : ℕ
  pub site_id : Option ℕ
  pub hostname : Text
  pub mgmt_ip : Text
  pub vendor : Text
  pub model : Option Text
  pub os_version : Option Text
  pub serial_number : Option Text
  pub device_type : DeviceType
  pub adapter_id : Text
  pub enabled : Bool
  pub last_seen : Option ℕ
  pub deleted : Bool

pub data CredentialProtocol : Type 0 where
  ssh snmp api : CredentialProtocol

pub record Credential : Type 0 where
  pub id : ℕ
  pub name : Text
  pub base_url : Option Text
  pub api_token : Option Text
  pub deleted : Bool

pub record DeviceCredential : Type 0 where
  pub device_id : ℕ
  pub credential_id : ℕ
  pub protocol : CredentialProtocol
  pub deleted : Bool

-- A session has one object for each row: the device as it is now, and its change.
abbrev pub object_of : Device → List Device → Device
object_of d [] = d
object_of d (e ∷ devices) = if e.id == d.id then e else object_of d devices

abbrev pub replace_device : Device → List Device → List Device
replace_device d [] = []
replace_device d (e ∷ devices) = (if e.id == d.id then d else e) ∷ replace_device d devices
