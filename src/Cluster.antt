-- ===== src/Cluster.antt =====
-- The Kubernetes API server and the disks as the environment of the program.
pub mod Disk
pub mod Program
pub mod Safe
pub mod Mono
pub mod Grows
pub mod Run
pub mod Performs
