-- ===== src/Unifi/Ports.antt =====
-- The ports of a UniFi switch as interfaces, and the VLANs of a controller (`ports_to_interfaces`,
-- `switch_port_interfaces` and `provision_vlan_only_networks` of
-- backend/src/netbuddy/services/unifi_local.py).
use netbuddy.Base.{
  ℕ, suc, Text, text, upper, decimal, or_empty, Bool, contains, List, [], ◌∷◌, ◌++◌, Option, none,
  some, cons_some, or_else, nat_eq, list_eq, if◌then◌else◌, Action, pure, ◌>>=◌, ◌>>◌,
}
use netbuddy.Base.Dict.{lookup, insert}
use netbuddy.Discovery.Rows.{InterfaceData, admin_unknown, oper_up, oper_down}
use netbuddy.Unifi.Raw.{RawPort, RawDevice, UnifiNetwork}
use netbuddy.Unifi.Console.{
  Answers, Sent, at_console, networks, device_by_ip, create_vlan_only_network,
}

abbrev pub media_mbps : List (Text × ℕ)
media_mbps =
    (text "FE", 100)
    ∷ (text "GE", 1000)
    ∷ (text "1GE", 1000)
    ∷ (text "2P5GE", 2500)
    ∷ (text "5GE", 5000)
    ∷ (text "10GE", 10000)
    ∷ (text "25GE", 25000)
    ∷ (text "40GE", 40000)
    ∷ (text "100GE", 100000)
    ∷ (text "SFP", 1000)
    ∷ (text "SFP+", 10000)
    ∷ (text "SFP28", 25000)
    ∷ (text "QSFP", 40000)
    ∷ (text "QSFP28", 100000)
    ∷ []

abbrev positive : Option ℕ → Option ℕ
positive (some (suc n)) = some (suc n)
positive _ = none

unfoldable pub unifi_port_speed : RawPort → Option ℕ
unifi_port_speed p = or_else (lookup (upper (or_empty p.media)) media_mbps) (positive p.speed)

abbrev named_port : ℕ → Option Text → Text
named_port idx (some (c ∷ s)) = c ∷ s
named_port idx _ = text "Port " ++ decimal idx

abbrev or_nothing : Option (Option ℕ) → Option ℕ
or_nothing none = none
or_nothing (some vlan) = vlan

abbrev vlan_of : List (Text × Option ℕ) → Option Text → Option ℕ
vlan_of vlan_by_nc (some (c ∷ s)) = or_nothing (lookup (c ∷ s) vlan_by_nc)
vlan_of vlan_by_nc _ = none

abbrev interface_of : List (Text × Option ℕ) → RawPort → Option ℕ → Option InterfaceData
interface_of vlan_by_nc p none = none
interface_of vlan_by_nc p (some idx) = some (record {
  name = named_port idx p.name;
  if_index = some idx;
  description = none;
  admin_status = admin_unknown;
  oper_status = if p.up then oper_up else oper_down;
  mac_address = none;
  speed_mbps = unifi_port_speed p;
  mtu = none;
  interface_type = none;
  parent_name = none;
  vlan_id = vlan_of vlan_by_nc p.native_networkconf_id;
})

unfoldable pub ports_to_interfaces : List (Text × Option ℕ) → List RawPort → List InterfaceData
unfolding unifi_port_speed decimal
ports_to_interfaces vlan_by_nc [] = []
ports_to_interfaces vlan_by_nc (p ∷ ports) =
    cons_some (interface_of vlan_by_nc p p.port_idx) (ports_to_interfaces vlan_by_nc ports)

abbrev vlans_by_id : List (Text × Option ℕ) → List UnifiNetwork → List (Text × Option ℕ)
vlans_by_id table [] = table
vlans_by_id table (n ∷ found) = vlans_by_id (insert n.id n.vlan table) found

abbrev interfaces_of : List UnifiNetwork → Option RawDevice → List InterfaceData
interfaces_of found none = []
interfaces_of found (some sw) = ports_to_interfaces (vlans_by_id [] found) sw.port_table

-- The VLANs that the controller has.
abbrev pub add_present : UnifiNetwork → Option ℕ → List ℕ → List ℕ
add_present n none present = present
add_present n (some vlan) present = if n.vlan_enabled then vlan ∷ present else present

unfoldable pub present_vlans : List UnifiNetwork → List ℕ
present_vlans [] = []
present_vlans (n ∷ found) = add_present n n.vlan (present_vlans found)

pub record VlanProvisionReport : Type 0 where
  pub created : List ℕ
  pub existing : List ℕ
  pub networks : List UnifiNetwork

-- What a run has created so far, and what it has found.
pub record Progress : Type 0 where
  pub created : List ℕ
  pub existing : List ℕ

module _ (controller : Answers) (unifi_site : Text) where
  -- The creation, unless the run is a dry one.
  abbrev pub create_unless : Bool → ℕ → Text → Action (List Sent) Unit
  create_unless dry_run vlan name =
      if dry_run
      then pure tt
      else create_vlan_only_network controller name vlan unifi_site >> pure tt

  abbrev skip : ℕ → Progress → Progress
  skip vlan p = record p { existing = p.existing ++ vlan ∷ [] }

  abbrev note : ℕ → Progress → Progress
  note vlan p = record p { created = p.created ++ vlan ∷ [] }

  unfoldable pub provision_each :
      Bool → List ℕ → List (ℕ × Text) → Progress → Action (List Sent) Progress
  unfolding create_vlan_only_network
  provision_each dry_run present [] p = pure p
  provision_each dry_run present ((vlan, name) ∷ specs) p =
      let skipped = provision_each dry_run present specs (skip vlan p) in
      let provided =
        create_unless dry_run vlan name >> provision_each dry_run present specs (note vlan p) in
      if contains vlan present then skipped else provided

  abbrev pub report : Progress → List UnifiNetwork → VlanProvisionReport
  report p found = record { created = p.created; existing = p.existing; networks = found }

  abbrev pub provision : Bool → List (ℕ × Text) → Action (List Sent) VlanProvisionReport
  provision dry_run specs = networks controller unifi_site >>= λ existing.
      provision_each dry_run (present_vlans existing) specs (record { created = []; existing = [] })
      >>= λ p. (if dry_run then pure existing else networks controller unifi_site) >>= λ found.
          pure (report p found)

  unfoldable pub provision_vlan_only_networks :
      List (Text × Text) → Text → List (ℕ × Text) → Bool → Action (List Sent) VlanProvisionReport
  unfolding networks present_vlans provision_each
  provision_vlan_only_networks consoles site specs dry_run =
      at_console controller (lookup site consoles) (provision dry_run specs)

  unfoldable pub switch_port_interfaces :
      List (Text × Text) → Text → Text → Action (List Sent) (List InterfaceData)
  unfolding networks device_by_ip ports_to_interfaces
  switch_port_interfaces consoles site switch_ip = at_console controller (lookup site consoles) (
      networks controller unifi_site >>= λ found.
      device_by_ip controller switch_ip unifi_site >>= λ sw. pure (interfaces_of found sw))
