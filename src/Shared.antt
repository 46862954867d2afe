-- ===== src/Shared.antt =====
-- shared/: the code that the services have in common.
pub mod Backoff
pub mod Functions
pub mod Bucket
pub mod BuildEvent
