-- ===== src/Policies.antt =====
-- Pure rules of the domain that the use cases call before they write.
pub mod ClassTeacher
pub mod HeadCoach
pub mod Removal
pub mod Sets
pub mod StudentClass
pub mod Attendance
pub mod BatchKeys
pub mod BatchValidity
mod Tests
