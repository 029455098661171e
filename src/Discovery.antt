-- ===== src/Discovery.antt =====
-- Reading a device into the inventory (backend/src/netbuddy/services/discovery.py): what is read and
-- written (Rows), how it is stored (Tables, Vpn), and a run (Run). The other modules are the proofs:
-- the identity of interfaces and the cache (Keys, Grows, Reads), the LLDP neighbours (Neighbors,
-- Lldp), the flags of tunnels (Tunnels) and the status (Status).
pub mod Rows
pub mod Tables
pub mod Vpn
pub mod Run
pub mod Status
pub mod Keys
pub mod Grows
pub mod Reads
pub mod Neighbors
pub mod Lldp
pub mod Tunnels
pub mod Vlans
pub mod Scheduled
pub mod Snapshot
mod Tests
