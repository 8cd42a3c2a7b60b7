-- ===== src/Shim.antt =====
-- src/sdn-shim: the operator that keeps the Kubernetes resources of the network as the SDN
-- controller reports it.
pub mod Topology
pub mod Api
pub mod Sets
pub mod Run
pub mod Reconcile
