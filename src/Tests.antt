-- ===== src/Tests.antt =====
-- Runs at concrete inputs: a cluster that answers every call, and the theorems applied to it.
pub mod Data
pub mod Utils
pub mod Profile
pub mod Replication
pub mod Mapping
pub mod DriverData
pub mod Driver
pub mod Pods
pub mod Reconcile
pub mod Shared
pub mod Startup
