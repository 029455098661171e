-- ===== src/Vlans/Apis.antt =====
-- The VLANs that vendors' interfaces answer with (`parse_meraki_switch_ports`, `_fortigate_info` and
-- `_unifi_info` of backend/src/netbuddy/services/vlan_survey.py). An answer is given as the fields
-- that are read of it, each missing or there; the second request of `_fortigate_info` and its third
-- may answer with another status than 200, and then give nothing.
use netbuddy.Base.{
  ℕ, zero, suc, Text, text, lower, or_empty, split, decimal, take_while, drop_while, Bool, not,
  ◌&&◌, ◌||◌, leb, length, contains, List, [], ◌∷◌, ◌++◌, map, Option, none, some, is_some, nat_eq,
  list_eq, pair_eq, ◌==◌, if◌then◌else◌, Result, ok, then_ok,
}
use mathlib.Core.List.{reverse}
use netbuddy.Base.Dict.{lookup, insert, setdefault}
use netbuddy.Unifi.{consoles}
use netbuddy.Vlans.Range.{expand_vlan_list}
use netbuddy.Vlans.Rows.{
  SviInfo, DeviceVlanInfo, VlanTransition, switch, firewall, unifi, new_info, new_svi,
}
use netbuddy.Vlans.Config.{define_vlan, add_access_ports, add_trunk_vlan, add_svi}

-- A number that counts as true.
abbrev positive : Option ℕ → Option ℕ
positive none = none
positive (some zero) = none
positive (some (suc n)) = some (suc n)

abbrev define_some : Option ℕ → DeviceVlanInfo → DeviceVlanInfo
define_some none info = info
define_some (some v) info = define_vlan v info

pub record MerakiPort : Type 0 where
  pub vlan : Option ℕ
  pub type : Option Text
  pub voice_vlan : Option ℕ
  pub allowed_vlans : Option Text

abbrev allow_vlans : List ℕ → DeviceVlanInfo → DeviceVlanInfo
allow_vlans [] info = info
allow_vlans (v ∷ ids) info = allow_vlans ids (add_trunk_vlan v (define_vlan v info))

-- An explicit list of at most 200 VLANs.
abbrev allow : Text → DeviceVlanInfo → DeviceVlanInfo
allow [] info = info
allow (c ∷ s) info =
    let ids = expand_vlan_list (c ∷ s) in
    if not (lower (c ∷ s) == text "all") && leb (length ids) 200 then allow_vlans ids info else info

abbrev access_port : MerakiPort → ℕ → DeviceVlanInfo → DeviceVlanInfo
access_port p v info =
    define_some (positive p.voice_vlan) (add_access_ports v 1 (define_vlan v info))

abbrev meraki_port : MerakiPort → Option ℕ → DeviceVlanInfo → DeviceVlanInfo
meraki_port p none info =
    if or_empty p.type == text "trunk" then allow (or_empty p.allowed_vlans) info else info
meraki_port p (some v) info =
    if or_empty p.type == text "access"
    then access_port p v info
    else (if or_empty p.type == text "trunk"
        then allow (or_empty p.allowed_vlans) (define_vlan v info)
        else info)

unfoldable pub meraki_ports : List MerakiPort → DeviceVlanInfo → DeviceVlanInfo
meraki_ports [] info = info
meraki_ports (p ∷ ports) info = meraki_ports ports (meraki_port p (positive p.vlan) info)

unfoldable pub parse_meraki_switch_ports : Text → Text → List MerakiPort → DeviceVlanInfo
unfolding meraki_ports
parse_meraki_switch_ports hostname site ports =
    meraki_ports ports (new_info hostname (some site) switch)

-- `str(value)` of a text that may be missing
abbrev pub str : Option Text → Text
str none = text "None"
str (some s) = s

pub record FortigateInterface : Type 0 where
  pub name : Option Text
  pub type : Option Text
  pub vlanid : Option ℕ
  pub ip : Option Text
  pub dhcp_relay_service : Option Text
  pub dhcp_relay_ip : Option Text

pub record FortigatePolicy : Type 0 where
  pub name : Option Text
  pub policyid : Text
  pub action : Option Text
  pub status : Option Text
  pub nat : Option Text
  pub srcintf : List (Option Text)
  pub dstintf : List (Option Text)

-- The local variables `iface_vlan` and `iface_type`, and what is known of the device.
pub record Interfaces : Type 0 where
  pub iface_vlan : List (Text × ℕ)
  pub iface_type : List (Text × Text)
  pub info : DeviceVlanInfo

abbrev before_blank : Text → Text
before_blank s = take_while (λ c. not (c == 32)) s

-- `s.strip('"')`
abbrev strip_quotes : Text → Text
strip_quotes s =
    let quote : ℕ → Bool = λ c. c == b'"' in
    reverse (drop_while quote (reverse (drop_while quote s)))

abbrev gateway_of : Text → Option Text
gateway_of ip = if ip == [] || ip == text "0.0.0.0" then none else some ip

abbrev relays_of : FortigateInterface → List Text
relays_of i =
    if str i.dhcp_relay_service == text "enable"
    then map strip_quotes (split (or_empty i.dhcp_relay_ip))
    else []

abbrev fortigate_svi : FortigateInterface → ℕ → SviInfo
fortigate_svi i v = record (new_svi v (gateway_of (before_blank (or_empty i.ip)))) {
  helpers = relays_of i;
}

abbrev add_vlan_interface : FortigateInterface → Option ℕ → Interfaces → Interfaces
add_vlan_interface i none s = s
add_vlan_interface i (some v) s = record s {
  iface_vlan = insert (str i.name) v s.iface_vlan;
  info =
      add_svi (fortigate_svi i v)
        (record s.info { vlans = insert v (some (str i.name)) s.info.vlans });
}

unfoldable pub add_interfaces : List FortigateInterface → Interfaces → Interfaces
add_interfaces [] s = s
add_interfaces (i ∷ interfaces) s = add_interfaces interfaces (
    add_vlan_interface i (positive i.vlanid)
      (record s { iface_type = insert (str i.name) (or_empty i.type) s.iface_type }))

abbrev add_dhcp : Option ℕ → DeviceVlanInfo → DeviceVlanInfo
add_dhcp none info = info
add_dhcp (some v) info = record info { dhcp_server_vlans = info.dhcp_server_vlans ++ v ∷ [] }

-- The interfaces of the DHCP servers.
unfoldable pub add_dhcp_servers :
    List (Text × ℕ) → List (Option Text) → DeviceVlanInfo → DeviceVlanInfo
add_dhcp_servers iface_vlan [] info = info
add_dhcp_servers iface_vlan (i ∷ servers) info =
    add_dhcp_servers iface_vlan servers (add_dhcp (lookup (str i) iface_vlan) info)

-- Where a policy leads to from a VLAN: to another VLAN, into a tunnel, to the internet, or elsewhere.
abbrev destination : Interfaces → Bool → Text → Text × Text
destination s nat di = elim (lookup di s.iface_vlan) [
  | some v ↦ (text "vlan", decimal v)
  | none ↦
      if or_empty (lookup di s.iface_type) == text "tunnel"
      then (text "vpn", di)
      else (if nat then (text "internet", di) else (text "lan", di))
]

-- The transitions so far, and the set `seen` of their keys.
pub record Transitions : Type 0 where
  pub seen : List (ℕ × (Text × Text))
  pub found : List VlanTransition

abbrev add_transition : Text → ℕ → Text × Text → Transitions → Transitions
add_transition policy v (to, detail) t = if contains (v, (to, detail)) t.seen then t else record {
  seen = (v, (to, detail)) ∷ t.seen;
  found = t.found ++ record { vlan_id = v; to = to; detail = detail; policy = policy } ∷ [];
}

abbrev policy_name : FortigatePolicy → Text
policy_name p = elim (or_empty p.name) [ [] ↦ p.policyid | c ∷ s ↦ c ∷ s ]

module _ (s : Interfaces) (p : FortigatePolicy) where
  unfoldable pub to_each : Text → ℕ → List (Option Text) → Transitions → Transitions
  unfolding decimal
  to_each si v [] t = t
  to_each si v (d ∷ dsts) t = to_each si v dsts (
      if str d == si
      then t
      else add_transition (policy_name p) v (destination s (str p.nat == text "enable") (str d)) t)

  abbrev from_one : Option Text → Option ℕ → Transitions → Transitions
  from_one si none t = t
  from_one si (some v) t = to_each (str si) v p.dstintf t

  unfoldable pub from_each : List (Option Text) → Transitions → Transitions
  unfolding to_each
  from_each [] t = t
  from_each (si ∷ srcs) t = from_each srcs (from_one si (lookup (str si) s.iface_vlan) t)

unfoldable pub add_policies : Interfaces → List FortigatePolicy → Transitions → Transitions
unfolding from_each
add_policies s [] t = t
add_policies s (p ∷ policies) t = add_policies s policies (
    if not (str p.action == text "accept") || str p.status == text "disable"
    then t
    else from_each s p p.srcintf t)

abbrev or_no {ℓ} : {A : Type ℓ} → Option (List A) → List A
or_no none = []
or_no (some xs) = xs

unfoldable pub fortigate_info :
    Text
    → Result (List FortigateInterface)
    → Result (Option (List (Option Text)))
    → Result (Option (List FortigatePolicy))
    → Result DeviceVlanInfo
unfolding add_interfaces add_dhcp_servers add_policies
fortigate_info hostname interfaces dhcp policies = then_ok interfaces (λ found.
    let s =
      add_interfaces found
        (record { iface_vlan = []; iface_type = []; info = new_info hostname none firewall }) in
    then_ok dhcp (λ servers. then_ok policies (λ rules.
      ok (record (add_dhcp_servers s.iface_vlan (or_no servers) s.info) {
        transitions = (add_policies s (or_no rules) (record { seen = []; found = [] })).found;
      }))))

pub record NetworkConf : Type 0 where
  pub name : Option Text
  pub vlan : Option ℕ
  pub vlan_enabled : Bool
  pub dhcpd_enabled : Bool
  pub ip_subnet : Option Text

abbrev add_subnet : Text → DeviceVlanInfo → DeviceVlanInfo
add_subnet [] info = info
add_subnet (c ∷ s) info = add_svi (new_svi 1 (some (c ∷ s))) info

abbrev add_network : NetworkConf → Option ℕ → DeviceVlanInfo → DeviceVlanInfo
add_network n vid info =
    if n.vlan_enabled
    then (elim vid [
      | none ↦ info
      | some v ↦
          add_dhcp (if n.dhcpd_enabled then some v else none)
            (record info { vlans = insert v (some (or_empty n.name)) info.vlans })
    ])
    else add_dhcp (if n.dhcpd_enabled then some 1 else none) (
        add_subnet (take_while (λ c. not (c == b'/')) (or_empty n.ip_subnet))
          (record info { vlans = setdefault 1 (some (or_empty n.name)) info.vlans }))

unfoldable pub add_networks : List NetworkConf → DeviceVlanInfo → DeviceVlanInfo
add_networks [] info = info
add_networks (n ∷ networks) info = add_networks networks (add_network n (positive n.vlan) info)

unfoldable pub unifi_info : Text → Result (List NetworkConf) → Result DeviceVlanInfo
unfolding add_networks
unifi_info site networks =
    let info = new_info (text "UniFi-Controller " ++ site) (some site) unifi in
    if is_some (lookup site consoles)
    then then_ok networks (λ found. ok (add_networks found info))
    else ok (record info { error = some (text "keine UniFi-Konsole für '" ++ site ++ text "'") })
