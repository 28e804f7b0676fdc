-- ===== src/Uploads.antt =====
-- The use cases of the private images (src/domain/uploads/application/use-cases), on the repository
-- of the media rows and the object storage.
pub mod Storage
pub mod Reconcile
pub mod Absence
pub mod Completion
pub mod Answering
pub mod Cleanup
pub mod Progress
pub mod Accounting
mod Tests
mod CleanupTests
