-- ===== src/Tests.antt =====
-- The theorems at concrete inputs.
pub mod Wire
pub mod Sessions
pub mod Rooms
pub mod Packets
pub mod Servers
pub mod Exchanges
pub mod Clients
