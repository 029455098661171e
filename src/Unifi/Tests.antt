-- ===== src/Unifi/Tests.antt =====
-- A controller with one network and one switch, and the theorems there.
use netbuddy.Base.{
  IsFirst, or_empty, ◌&&◌, option_eq, ℕ, Text, text, true, false, List, [], ◌∷◌, none, some, ok,
  ◌≡◌, refl, map, ◌++◌, ◌==◌, list_eq, nat_eq, lower_char,
}
use netbuddy.Base.Dict.{lookup}
use netbuddy.Unifi.Raw.{number, string, Override, RawDevice, RawNetwork, str, parse_network}
use netbuddy.Unifi.Console.{
  Answers, login, get_networks, get_devices, change, post_network, assign_unifi_port_vlan, base_url,
}
use netbuddy.Unifi.Ports.{VlanProvisionReport, provision_vlan_only_networks}
use netbuddy.Unifi.Provisioned.{
  has_vlan, missing, there, posts, provision_vlan_only_networks-missing,
}
use netbuddy.Unifi.Assigned.{put_for, IsSwitchAt, IsSwitchOf, assign_unifi_port_vlan-put}

abbrev cameras : RawNetwork
cameras = record {
  id = some (text "n30");
  name = some (text "cameras");
  purpose = some (text "vlan-only");
  vlan_enabled = true;
  vlan = some 30;
}

abbrev named : Text → ℕ → Override
named name idx = (text "name", string name) ∷ (text "port_idx", number idx) ∷ []

abbrev usw : RawDevice
usw = record {
  id = some (text "d1");
  mac = some (text "aa:bb");
  name = some (text "usw");
  model = none;
  ip = some (text "10.0.0.9");
  type = some (text "usw");
  uplink_type = none;
  uplink_mac = none;
  port_table = [];
  port_overrides = named (text "door") 4 ∷ named (text "hall") 5 ∷ [];
}

abbrev controller : Answers
controller = record {
  login = λ _. ok tt;
  sites = λ _. ok [];
  devices = λ _ _. ok (usw ∷ []);
  clients = λ _ _. ok [];
  networks = λ _ _. ok (cameras ∷ []);
  change = λ _ _. ok [];
}

abbrev consoles : List (Text × Text)
consoles = (text "berlin", text "10.0.0.1") ∷ []

abbrev specs : List (ℕ × Text)
specs = (30, text "cameras") ∷ (40, text "guests") ∷ []

provides_guests :
    (provision_vlan_only_networks controller
      (text "default")
      consoles
      (text "berlin")
      specs
      false
      []).1
    ≡ login (text "https://10.0.0.1:11443")
      ∷ get_networks (text "default")
      ∷ change (post_network (text "default") (text "guests") 40)
      ∷ get_networks (text "default")
      ∷ []
unfolding provision_vlan_only_networks
provides_guests = refl

abbrev report : VlanProvisionReport
report = record {
  created = 40 ∷ [];
  existing = 30 ∷ [];
  networks = map parse_network (cameras ∷ []);
}

provides_report :
    (provision_vlan_only_networks controller
      (text "default")
      consoles
      (text "berlin")
      specs
      false
      []).0
    ≡ ok report
unfolding provision_vlan_only_networks parse_network
provides_report = refl

-- A second run would have nothing to do for a VLAN that is there.
provision_vlan_only_networks-missing_example :
    (ip : Text) × (raws : List RawNetwork) × (lookup (text "berlin") consoles ≡ some ip)
    × (controller.networks (login (base_url controller ip) ∷ []) (text "default") ≡ ok raws)
    × (40 ∷ [] ≡ missing (has_vlan raws) specs)
    × (30 ∷ [] ≡ there (has_vlan raws) specs)
    × ((provision_vlan_only_networks controller
          (text "default")
          consoles
          (text "berlin")
          specs
          false
          []).1
        ≡ login (base_url controller ip)
            ∷ get_networks (text "default")
            ∷ posts (text "default") false (has_vlan raws) specs
          ++ get_networks (text "default") ∷ [])
provision_vlan_only_networks-missing_example =
    provision_vlan_only_networks-missing controller (text "default") consoles (text "berlin") specs
      false [] report provides_report

puts_port_4 :
    (assign_unifi_port_vlan controller consoles
      (text "default")
      (text "berlin")
      (text "10.0.0.9")
      4
      30
      []).0
    ≡ ok (text "n30")
unfolding assign_unifi_port_vlan lower_char
puts_port_4 = refl

-- No network of the controller has VLAN 31: nothing is changed.
refuses_vlan_31 :
    (assign_unifi_port_vlan controller consoles
      (text "default")
      (text "berlin")
      (text "10.0.0.9")
      4
      31
      []).1
    ≡ login (text "https://10.0.0.1:11443") ∷ get_networks (text "default") ∷ []
unfolding assign_unifi_port_vlan
refuses_vlan_31 = refl

assign_unifi_port_vlan-put_example :
    (ip : Text) × (raws : List RawNetwork) × (raw : RawNetwork) × (d' : RawDevice) × (d : RawDevice)
    × (lookup (text "berlin") consoles ≡ some ip)
    × (controller.networks (login (base_url controller ip) ∷ []) (text "default") ≡ ok raws)
    × IsFirst (λ n. n.vlan == some 30 && n.vlan_enabled) raws raw
    × (text "n30" ≡ or_empty raw.id)
    × IsSwitchAt controller
        (text "default")
        (text "10.0.0.9")
        (login (base_url controller ip) ∷ get_networks (text "default") ∷ [])
        d'
    × IsSwitchOf controller
        (text "default")
        (str d'.mac)
        (login (base_url controller ip)
          ∷ get_networks (text "default")
          ∷ get_devices (text "default")
          ∷ [])
        d
    × ((assign_unifi_port_vlan controller consoles
          (text "default")
          (text "berlin")
          (text "10.0.0.9")
          4
          30
          []).1
        ≡ login (base_url controller ip)
          ∷ get_networks (text "default")
          ∷ get_devices (text "default")
          ∷ get_devices (text "default")
          ∷ put_for controller (text "default") 4 (text "n30") d
          ∷ [])
assign_unifi_port_vlan-put_example =
    assign_unifi_port_vlan-put controller (text "default") consoles (text "berlin")
      (text "10.0.0.9") 4 30 [] (text "n30") puts_port_4
