-- ===== src/Utils.antt =====
-- internal/utils: the helpers that the controllers share.
pub mod Core
pub mod Merge
pub mod Meta
pub mod Csi
pub mod Concurrent
