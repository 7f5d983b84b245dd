-- ===== src/Tests.antt =====
-- Runs of the theorems at concrete inputs.
pub mod Fixtures
pub mod Requests
pub mod Answers
pub mod Server
pub mod Station
pub mod Device
pub mod Setups
pub mod Threads
pub mod Portals
pub mod Peers
pub mod Restarts
pub mod Chains
pub mod Browsers
pub mod Rivals
