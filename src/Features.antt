-- ===== src/Features.antt =====
-- pkg/features: the feature gates and their dependencies.
pub mod Gates
mod Step
pub mod Resolve
mod Tests
