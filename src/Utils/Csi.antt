-- ===== src/Utils/Csi.antt =====
-- internal/utils/csi.go: what the pods of a driver are made of.
pub mod Volumes
pub mod Mounts
pub mod Args
pub mod Paths
