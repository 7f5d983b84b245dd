-- ===== src/Gatt.antt =====
-- The GATT service of src/ob_bluetooth_gatt.c: the list of networks, its notifications, and the
-- network that a peer sets.
pub mod Notify
pub mod ApList
pub mod Networks
pub mod Join
pub mod Buffer
pub mod Outcome
pub mod Restart
pub mod Service
