-- ===== src/Classes.antt =====
-- PrismaClassesRepository (src/infra/database/prisma/repositories/prisma-classes-repository.ts):
-- the teachers and the students of classes.
pub mod Teachers
pub mod Coaches
pub mod Enrolments
pub mod Moves
pub mod Secondary
mod Tests
