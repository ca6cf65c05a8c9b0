-- ===== src/Tests.antt =====
-- Runs of the definitions, and the theorems at concrete inputs.
pub mod Sample
pub mod Ranges
pub mod Pools
pub mod Control
pub mod Others
pub mod Host
pub mod Announcer
pub mod Queues
