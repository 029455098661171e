-- ===== src/Vlans/Survey.antt =====
-- The VLANs of each site, from what is known of its devices (`aggregate_survey` and
-- `run_vlan_survey` of backend/src/netbuddy/services/vlan_survey.py). Sites are kept under their
-- names, and a VLAN of a site under its number.
use netbuddy.Base.{
  ℕ, ◌+◌, Text, text, text_lt, ltb, Bool, true, false, not, ◌&&◌, contains, List, [], ◌∷◌, ◌++◌,
  map, cons_some, Option, none, some, nat_eq, list_eq, ◌==◌, if◌then◌else◌, Result, ok, raised,
  Exception,
}
use netbuddy.Base.Dict.{lookup, insert, values}
use netbuddy.Inventory.{Device, Credential, DeviceCredential}
use netbuddy.Unifi.{consoles}
use netbuddy.Vlans.Rows.{
  SviInfo, VlanTransition, DeviceVlanInfo, Kind, switch, firewall, unifi, meraki, new_info,
}
use netbuddy.Vlans.Config.{parse_cli_config, or_zero}

pub record VlanEntry : Type 0 where
  pub vlan_id : ℕ
  pub names : List Text
  pub gateways : List (Text × Text)
  pub dhcp_servers : List Text
  pub dhcp_helpers : List (Text × List Text)
  pub carriers : List Text
  pub access_ports : ℕ

abbrev pub new_entry : ℕ → VlanEntry
new_entry v = record {
  vlan_id = v;
  names = [];
  gateways = [];
  dhcp_servers = [];
  dhcp_helpers = [];
  carriers = [];
  access_ports = 0;
}

abbrev pub entry_or_new : ℕ → Option VlanEntry → VlanEntry
entry_or_new v none = new_entry v
entry_or_new v (some e) = e

-- `if x not in xs: xs.append(x)`
abbrev pub add_once : Text → List Text → List Text
add_once x xs = if contains x xs then xs else xs ++ x ∷ []

abbrev add_name : Option Text → List Text → List Text
add_name none names = names
add_name (some []) names = names
add_name (some (c ∷ s)) names = add_once (c ∷ s) names

module _ (dev : DeviceVlanInfo) where
  -- A VLAN of the device.
  abbrev pub carry : ℕ → Option Text → VlanEntry → VlanEntry
  carry v name e = record e {
    names = add_name name e.names;
    carriers = add_once dev.hostname e.carriers;
    access_ports = e.access_ports + or_zero (lookup v dev.access_ports);
  }

  unfoldable pub add_vlans : List (ℕ × Option Text) → List (ℕ × VlanEntry) → List (ℕ × VlanEntry)
  add_vlans [] vlans = vlans
  add_vlans ((v, name) ∷ rest) vlans =
      add_vlans rest (insert v (carry v name (entry_or_new v (lookup v vlans))) vlans)

  -- An interface with an address, and one that relays DHCP.
  abbrev pub add_gateway : Option Text → VlanEntry → VlanEntry
  add_gateway none e = e
  add_gateway (some []) e = e
  add_gateway (some (c ∷ s)) e = record e { gateways = e.gateways ++ (dev.hostname, c ∷ s) ∷ [] }

  abbrev pub add_helpers : List Text → VlanEntry → VlanEntry
  add_helpers [] e = e
  add_helpers (h ∷ helpers) e = record e {
    dhcp_helpers = e.dhcp_helpers ++ (dev.hostname, h ∷ helpers) ∷ [];
  }

  abbrev pub route : SviInfo → VlanEntry → VlanEntry
  route svi e = add_helpers svi.helpers (add_gateway svi.ip e)

  abbrev pub serve : VlanEntry → VlanEntry
  serve e = record e { dhcp_servers = add_once dev.hostname e.dhcp_servers }

  -- A VLAN that no device of the site has defined is passed over.
  abbrev pub change_entry :
      (VlanEntry → VlanEntry) → ℕ → Option VlanEntry → List (ℕ × VlanEntry) → List (ℕ × VlanEntry)
  change_entry f v none vlans = vlans
  change_entry f v (some e) vlans = insert v (f e) vlans

  unfoldable pub add_svis : List SviInfo → List (ℕ × VlanEntry) → List (ℕ × VlanEntry)
  add_svis [] vlans = vlans
  add_svis (svi ∷ svis) vlans =
      add_svis svis (change_entry (route svi) svi.vlan_id (lookup svi.vlan_id vlans) vlans)

  unfoldable pub add_servers : List ℕ → List (ℕ × VlanEntry) → List (ℕ × VlanEntry)
  add_servers [] vlans = vlans
  add_servers (v ∷ ids) vlans = add_servers ids (change_entry serve v (lookup v vlans) vlans)

  unfoldable pub add_device : List (ℕ × VlanEntry) → List (ℕ × VlanEntry)
  unfolding add_vlans add_svis add_servers
  add_device vlans =
      add_servers dev.dhcp_server_vlans (add_svis dev.svis (add_vlans dev.vlans vlans))

-- `dev.site or "—"`
abbrev pub site_of : Option Text → Text
site_of none = text "—"
site_of (some []) = text "—"
site_of (some (c ∷ s)) = c ∷ s

abbrev pub or_none {ℓ} : {A : Type ℓ} → Option (List A) → List A
or_none none = []
or_none (some xs) = xs

unfoldable pub add_devices :
    List DeviceVlanInfo → List (Text × List (ℕ × VlanEntry)) → List (Text × List (ℕ × VlanEntry))
unfolding add_device
add_devices [] sites = sites
add_devices (dev ∷ devs) sites =
    let site = site_of dev.site in
    add_devices devs (insert site (add_device dev (or_none (lookup site sites))) sites)

abbrev with_device : Text → List VlanTransition → List (VlanTransition × Text)
with_device hostname transitions = map (λ t. (t, hostname)) transitions

abbrev add_transitions :
    DeviceVlanInfo
    → List VlanTransition
    → List (Text × List (VlanTransition × Text))
    → List (Text × List (VlanTransition × Text))
add_transitions dev [] sites = sites
add_transitions dev (t ∷ transitions) sites =
    let site = site_of dev.site in
    insert site (or_none (lookup site sites) ++ with_device dev.hostname (t ∷ transitions)) sites

unfoldable pub transitions_of :
    List DeviceVlanInfo
    → List (Text × List (VlanTransition × Text))
    → List (Text × List (VlanTransition × Text))
transitions_of [] sites = sites
transitions_of (dev ∷ devs) sites = transitions_of devs (add_transitions dev dev.transitions sites)

abbrev error_of : DeviceVlanInfo → Option Text → Option (Text × Text)
error_of dev none = none
error_of dev (some []) = none
error_of dev (some (c ∷ s)) = some (dev.hostname, c ∷ s)

unfoldable pub device_errors : List DeviceVlanInfo → List (Text × Text)
device_errors [] = []
device_errors (dev ∷ devs) = cons_some (error_of dev dev.error) (device_errors devs)

-- `sorted`, which is stable.
abbrev pub place_entry : VlanEntry → List VlanEntry → List VlanEntry
place_entry e [] = e ∷ []
place_entry e (f ∷ entries) =
    if ltb f.vlan_id e.vlan_id then f ∷ place_entry e entries else e ∷ f ∷ entries

unfoldable pub sort_entries : List VlanEntry → List VlanEntry
sort_entries [] = []
sort_entries (e ∷ entries) = place_entry e (sort_entries entries)

abbrev pub place_site :
    Text × List VlanEntry → List (Text × List VlanEntry) → List (Text × List VlanEntry)
place_site s [] = s ∷ []
place_site s (t ∷ sites) = if text_lt t.0 s.0 then t ∷ place_site s sites else s ∷ t ∷ sites

unfoldable pub sort_sites : List (Text × List (ℕ × VlanEntry)) → List (Text × List VlanEntry)
unfolding sort_entries
sort_sites [] = []
sort_sites ((site, vlans) ∷ sites) =
    place_site (site, sort_entries (values vlans)) (sort_sites sites)

pub record Survey : Type 0 where
  pub sites : List (Text × List VlanEntry)
  pub transitions : List (Text × List (VlanTransition × Text))
  pub errors : List (Text × Text)

unfoldable pub aggregate_survey : List DeviceVlanInfo → Survey
unfolding add_devices transitions_of device_errors sort_sites
aggregate_survey devs = record {
  sites = sort_sites (add_devices devs []);
  transitions = transitions_of devs [];
  errors = device_errors devs;
}

-- The credentials of a device that are in use, in the order of the links; among them the first that
-- has an address for an API, or has none, as wanted.
abbrev is_url : Option Text → Bool
is_url none = false
is_url (some []) = false
is_url (some (c ∷ s)) = true

abbrev active_credential : ℕ → List Credential → Option Credential
active_credential id [] = none
active_credential id (c ∷ cs) =
    if c.id == id && not c.deleted then some c else active_credential id cs

abbrev credentials_of : List DeviceCredential → List Credential → Device → List Credential
credentials_of [] credentials dev = []
credentials_of (l ∷ links) credentials dev =
    let rest = credentials_of links credentials dev in
    if l.device_id == dev.id && not l.deleted
    then cons_some (active_credential l.credential_id credentials) rest
    else rest

abbrev matching : Bool → List Credential → Option Credential
matching wants_api [] = none
matching wants_api (c ∷ cs) =
    if (if is_url c.base_url then wants_api else not wants_api)
    then some c
    else matching wants_api cs

abbrev head : List Credential → Option Credential
head [] = none
head (c ∷ cs) = some c

unfoldable pub cred_for :
    Bool → List DeviceCredential → List Credential → Device → Option Credential
cred_for wants_api links credentials dev =
    let rows = credentials_of links credentials dev in
    elim (matching wants_api rows) [ none ↦ head rows | some c ↦ some c ]

abbrev pub cli_adapters : List Text
cli_adapters =
    text "dell_os6"
    ∷ text "dell_os10"
    ∷ text "fs_centec"
    ∷ text "fs_ruijie"
    ∷ text "tplink_jetstream"
    ∷ text "cisco_ios"
    ∷ text "cisco_nxos"
    ∷ text "aruba_cx"
    ∷ text "aruba_procurve"
    ∷ text "huawei_vrp"
    ∷ text "cisco_sb"
    ∷ []

-- The reads of devices and controllers, each within its time, or an exception.
pub record Reads : Type 0 where
  pub cli_config : Device → Credential → Result Text
  pub fortigate : Device → Credential → Result DeviceVlanInfo
  pub unifi_site : Text → Credential → Result DeviceVlanInfo
  pub meraki_cloud : Credential → Result (List DeviceVlanInfo)

-- `f"{type(exc).__name__}: {exc}"`
abbrev message_of : Exception → Text
message_of e = e.type_name ++ text ": " ++ e.message

abbrev failed_info : Text → Option Text → Kind → Exception → DeviceVlanInfo
failed_info hostname site kind e = record (new_info hostname site kind) {
  error = some (message_of e);
}

abbrev site_name : List (ℕ × Text) → Option ℕ → Option Text
site_name sites none = none
site_name sites (some id) = lookup id sites

abbrev cli_info : Device → Result Text → DeviceVlanInfo
cli_info dev (ok config) = parse_cli_config dev.hostname config
cli_info dev (raised e) = failed_info dev.hostname none switch e

abbrev firewall_info : Device → Result DeviceVlanInfo → DeviceVlanInfo
firewall_info dev (ok info) = info
firewall_info dev (raised e) = failed_info dev.hostname none firewall e

abbrev at_site : List (ℕ × Text) → Device → DeviceVlanInfo → DeviceVlanInfo
at_site sites dev info = record info { site = site_name sites dev.site_id }

module _ (reads : Reads) (sites : List (ℕ × Text)) where
  abbrev do_cli : Device → Option Credential → Option DeviceVlanInfo
  do_cli dev none = none
  do_cli dev (some c) = some (at_site sites dev (cli_info dev (reads.cli_config dev c)))

  abbrev do_fw : Device → Option Credential → Option DeviceVlanInfo
  do_fw dev none = none
  do_fw dev (some c) =
      if is_url c.api_token
      then some (at_site sites dev (firewall_info dev (reads.fortigate dev c)))
      else none

  unfoldable pub survey_device :
      List DeviceCredential → List Credential → Device → Option DeviceVlanInfo
  unfolding cred_for parse_cli_config
  survey_device links credentials dev =
      if dev.deleted
      then none
      else (if contains dev.adapter_id cli_adapters
          then do_cli dev (cred_for false links credentials dev)
          else (if dev.adapter_id == text "fortigate"
              then do_fw dev (cred_for true links credentials dev)
              else none))

  unfoldable pub survey_devices :
      List DeviceCredential → List Credential → List Device → List DeviceVlanInfo
  unfolding survey_device
  survey_devices links credentials [] = []
  survey_devices links credentials (dev ∷ devs) =
      cons_some (survey_device links credentials dev) (survey_devices links credentials devs)

abbrev unifi_read : Text → Result DeviceVlanInfo → DeviceVlanInfo
unifi_read site (ok info) = info
unifi_read site (raised e) = failed_info (text "UniFi-Controller " ++ site) (some site) unifi e

abbrev unifi_part : Reads → Option Credential → List DeviceVlanInfo
unifi_part reads none = []
unifi_part reads (some c) = map (λ (site, ip). unifi_read site (reads.unifi_site site c)) consoles

abbrev meraki_read : Result (List DeviceVlanInfo) → List DeviceVlanInfo
meraki_read (ok infos) = infos
meraki_read (raised e) = failed_info (text "Meraki Dashboard") none meraki e ∷ []

abbrev meraki_part : Reads → Option Credential → List DeviceVlanInfo
meraki_part reads none = []
meraki_part reads (some c) = if is_url c.api_token then meraki_read (reads.meraki_cloud c) else []

abbrev credential_named : Text → List Credential → Option Credential
credential_named name [] = none
credential_named name (c ∷ cs) =
    if c.name == name && not c.deleted then some c else credential_named name cs

unfoldable pub run_vlan_survey :
    Reads → List (ℕ × Text) → List DeviceCredential → List Credential → List Device → Survey
unfolding aggregate_survey survey_devices
run_vlan_survey reads sites links credentials devices = aggregate_survey (
    survey_devices reads sites links credentials devices
    ++ unifi_part reads (credential_named (text "UnifiLocal") credentials)
    ++ meraki_part reads (credential_named (text "MerakiCloud") credentials))
