-- ===== src/Carcer.antt =====
-- src/locus_carcerum: the two-ended allocator.
pub mod Word
pub mod Series
pub mod Take
pub mod Give
pub mod Grow
pub mod Query
pub mod Chain
pub mod Round
pub mod Api
mod Tests
