-- ===== src/Model.antt =====
-- src/kinda-sdn/model: devices, topologies and programs.
pub mod Devices
pub mod Graph
pub mod Program
