-- ===== src/Vlans.antt =====
-- Which VLANs exist where (backend/src/netbuddy/services/vlan_survey.py).
pub mod Range
pub mod Printed
pub mod Bounds
pub mod Rows
pub mod Patterns
pub mod Config
pub mod Defined
pub mod Consistent
pub mod Apis
pub mod Survey
pub mod Sums
pub mod Totals
pub mod Counted
mod Tests
