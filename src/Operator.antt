-- ===== src/Operator.antt =====
-- src/inc-operator: the operator for telemetry deployments, which reads the resources of the shim.
pub mod Shimutils
