-- ===== src/BuildService.antt =====
-- services/build-service.
pub mod Backpressure
pub mod ZipProcessor
pub mod Jobs
pub mod Artifacts
pub mod Notifier
pub mod Master
pub mod Worker
