-- ===== src/Adapters.antt =====
-- The adapters that a vendor's profile describes (backend/src/netbuddy/adapters).
pub mod Values
pub mod Converters
pub mod Macs
pub mod Scalars
pub mod Mapping
pub mod Declarative
pub mod Merged
pub mod Reads
mod Tests
