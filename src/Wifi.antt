-- ===== src/Wifi.antt =====
-- The Wi-Fi module, src/ob_wifi.c.
pub mod Ssids
pub mod Chain
pub mod Mac
pub mod State
pub mod Ap
pub mod Events
pub mod Connect
pub mod Lifecycle
pub mod Config
pub mod Listing
pub mod Outcome
pub mod Scan
pub mod AccessPoint
