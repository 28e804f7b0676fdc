-- ===== src/Results.antt =====
-- The rules for competition results (src/domain/results/application/services).
pub mod Ranking
pub mod Order
pub mod Best
pub mod Ranks
mod Tests
