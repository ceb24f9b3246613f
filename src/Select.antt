-- ===== src/Select.antt =====
-- pkg/select: which block device a claim gets.
pub mod Filters
pub mod Choose
pub mod Eligible
mod Each
mod Chain
mod Chosen
pub mod Sound
mod Tests
