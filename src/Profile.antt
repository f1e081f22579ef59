-- ===== src/Profile.antt =====
-- internal/controller/clientprofile_controller.go: the ClientProfile controller.
pub mod Record
pub mod Entries
pub mod State
pub mod Load
pub mod ConfigFile
pub mod Phases
pub mod Watches
