-- ===== src/Control.antt =====
-- The write paths that change a switch's configuration: the backup before a change (Backup), which ports are physical (Physical), LLDP
-- (Lldp) and a port's VLAN (PortVlan), over one state (Bench).
pub mod Bench
pub mod Sends
pub mod Backup
pub mod Physical
pub mod Lldp
pub mod PortVlan
mod Tests
