-- ===== src/Poe.antt =====
-- PoE recovery: the ports of a switch and when one is stuck (Port), the parsers of the switch's
-- output (Parse), reading and bouncing a port (Bounce), the rate limit and the audit trail (Policy)
-- and the recovery of all switches (Fleet). The proofs are in the modules below these.
pub mod Port
pub mod Parse
pub mod Bounce
pub mod Policy
pub mod Fleet
pub mod Worker
pub mod Tests
mod Examples
