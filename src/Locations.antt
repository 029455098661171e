-- ===== src/Locations.antt =====
-- Where access points are attached (backend/src/netbuddy/services/endpoint_location.py).
pub mod Cloud
pub mod Switches
pub mod Local
pub mod Rows
pub mod Placement
pub mod Info
pub mod Save
pub mod Build
pub mod Refines
pub mod Ports
pub mod Sticky
mod Tests
