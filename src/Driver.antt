-- ===== src/Driver.antt =====
-- internal/controller/driver_controller.go: the Driver controller.
pub mod Merge
pub mod Names
pub mod State
pub mod Load
pub mod LogRotate
pub mod CsiDriver
pub mod Network
pub mod Pods
pub mod Reconcile
pub mod Watches
