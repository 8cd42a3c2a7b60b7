-- ===== src/Connector.antt =====
-- src/libs/p4-connector/connector: table entries of P4 switches.
pub mod Entry
pub mod Actions
mod Tests
