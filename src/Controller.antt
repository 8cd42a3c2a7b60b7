-- ===== src/Controller.antt =====
-- src/kinda-sdn/controller: the SDN controller around the telemetry service.
pub mod Mapping
pub mod Frontend
pub mod Changes
mod Tests
