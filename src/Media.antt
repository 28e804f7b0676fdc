-- ===== src/Media.antt =====
-- Private media: the rows of the uploaded images, their lifecycle and the binding of an image to the
-- resource that shows it (src/infra/database/prisma/repositories/
-- prisma-private-media-objects-repository.ts and the tables of prisma/migrations).
pub mod Keys
pub mod Store
pub mod Statements
pub mod Objects
pub mod Bindings
pub mod Effects
pub mod Sound
pub mod Changes
pub mod Progress
pub mod Trace
pub mod Transitions
pub mod Cleanup
pub mod Ids
pub mod Columns
pub mod Decided
pub mod Exact
pub mod Reclaim
pub mod Slots
pub mod Commit
mod Tests
