-- ===== src/Mount.antt =====
-- pkg/mount/libmount: mount tables and the differences between two of them.
pub mod Util
pub mod Table
pub mod Diff
mod Explained
pub mod Sound
mod Keeps
pub mod Vanished
pub mod Complete
mod Tests
