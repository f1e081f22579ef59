-- ===== src/Api.antt =====
-- api/v1: the custom resources, and the parts of the Kubernetes objects that the controllers read
-- and write.
pub mod Meta
pub mod Profile
pub mod Client
pub mod Driver
pub mod Cluster
pub mod Pods
