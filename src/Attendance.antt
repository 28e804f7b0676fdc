-- ===== src/Attendance.antt =====
-- PrismaAttendanceRepository (src/infra/database/prisma/repositories/prisma-attendance-repository.ts).
pub mod Repository
pub mod Batch
mod Tests
