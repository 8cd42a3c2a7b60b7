-- ===== src/Telemetry.antt =====
-- src/kinda-sdn/telemetry: the plugin of the SDN controller that configures in-network telemetry.
pub mod Pool
pub mod Config
pub mod Counter
pub mod ChangeLog
pub mod Entities
pub mod Dfs
pub mod Traversals
pub mod Request
pub mod Entries
pub mod Service
pub mod Sample
pub mod Monitor
