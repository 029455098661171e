-- ===== src/Discovery/Rows.antt =====
-- What a discovery reads from a device (backend/src/netbuddy/adapters/dto.py, capabilities.py) and
-- the rows that it writes (backend/src/netbuddy/db/models).
use netbuddy.Base.{ℕ, Text, Bool, List, Option, Result, Exception}
use netbuddy.Inventory.{DeviceType}

pub data Capability : Type 0 where
  read_system_info read_interfaces read_lldp read_mac_table read_arp : Capability
  read_config read_vpn_tunnels configure_port_vlan : Capability

pub data AdminStatus : Type 0 where
  admin_up admin_down admin_unknown : AdminStatus

pub data OperStatus : Type 0 where
  oper_up oper_down oper_testing oper_unknown : OperStatus

pub data MacEntryType : Type 0 where
  dynamic static secure : MacEntryType

pub data DiscoveryStatus : Type 0 where
  running success partial failed : DiscoveryStatus

pub record SystemInfo : Type 0 where
  pub hostname : Text
  pub vendor : Text
  pub model : Option Text
  pub os_version : Option Text
  pub serial_number : Option Text
  pub device_type : DeviceType

pub record InterfaceData : Type 0 where
  pub name : Text
  pub if_index : Option ℕ
  pub description : Option Text
  pub admin_status : AdminStatus
  pub oper_status : OperStatus
  pub mac_address : Option Text
  pub speed_mbps : Option ℕ
  pub mtu : Option ℕ
  pub interface_type : Option Text
  pub parent_name : Option Text
  pub vlan_id : Option ℕ

pub record LldpNeighborData : Type 0 where
  pub local_interface : Text
  pub remote_chassis_id : Text
  pub remote_port_id : Text
  pub remote_port_description : Option Text
  pub remote_system_name : Option Text
  pub remote_system_description : Option Text
  pub mgmt_address : Option Text

pub record MacEntryData : Type 0 where
  pub mac_address : Text
  pub interface : Text
  pub vlan_id : Option ℕ
  pub entry_type : MacEntryType

pub record ArpData : Type 0 where
  pub ip_address : Text
  pub mac_address : Text
  pub vlan_id : Option ℕ

pub record VpnTunnelData : Type 0 where
  pub name : Text
  pub remote_gateway : Option Text
  pub is_up : Bool
  pub local_subnets : List Text
  pub remote_subnets : List Text

-- An adapter, by what it claims to be able to read, and what each read ends in.
pub record Adapter : Type 0 where
  pub can : Capability → Bool
  pub system_info : Result SystemInfo
  pub interfaces : Result (List InterfaceData)
  pub lldp_neighbors : Result (List LldpNeighborData)
  pub mac_table : Result (List MacEntryData)
  pub arp : Result (List ArpData)
  pub vpn_tunnels : Result (List VpnTunnelData)

pub record Interface : Type 0 where
  pub id : ℕ
  pub device_id : ℕ
  pub name : Text
  pub if_index : Option ℕ
  pub description : Option Text
  pub admin_status : AdminStatus
  pub oper_status : OperStatus
  pub mac_address : Option Text
  pub speed_mbps : Option ℕ
  pub mtu : Option ℕ
  pub interface_type : Option Text
  pub parent_name : Option Text
  pub vlan_id : Option ℕ
  pub last_polled : Option ℕ
  pub deleted : Bool

pub record LldpNeighbor : Type 0 where
  pub local_device_id : ℕ
  pub local_interface_id : ℕ
  pub remote_chassis_id : Text
  pub remote_port_id : Text
  pub remote_port_description : Option Text
  pub remote_system_name : Option Text
  pub remote_system_description : Option Text
  pub remote_mgmt_address : Option Text

pub record MacAddressEntry : Type 0 where
  pub device_id : ℕ
  pub interface_id : ℕ
  pub mac_address : Text
  pub vlan_id : Option ℕ
  pub entry_type : MacEntryType

pub record ArpEntry : Type 0 where
  pub device_id : ℕ
  pub ip_address : Text
  pub mac : Text
  pub vlan_id : Option ℕ

-- `relevant` is the administrator's flag.
pub record VpnTunnel : Type 0 where
  pub device_id : ℕ
  pub name : Text
  pub remote_gateway : Option Text
  pub is_up : Bool
  pub relevant : Bool
  pub local_subnets : List Text
  pub remote_subnets : List Text

pub record DiscoveryRun : Type 0 where
  pub triggered_by : Text
  pub seed_device : ℕ
  pub status : DiscoveryStatus
  pub errors : List (Capability × Exception)
  pub devices_found : ℕ
  pub finished_at : Option ℕ
