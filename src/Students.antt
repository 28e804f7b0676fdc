-- ===== src/Students.antt =====
-- PrismaStudentsRepository (src/infra/database/prisma/repositories/prisma-students-repository.ts):
-- the writes of a student with its guardians, season categories and class links.
pub mod Store
pub mod Repository
pub mod Links
pub mod Steps
pub mod Guardians
pub mod Update
pub mod Locked
mod Tests
