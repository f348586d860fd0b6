-- ===== src/Tests.antt =====
-- Concrete runs, and the theorems of the development at concrete inputs.
pub mod Scenario
pub mod Acceptance
pub mod Transfers
pub mod Parts
pub mod Nodes
pub mod Peers
pub mod Sessions
pub mod Keys
