-- ===== src/Daemon/Allowed.antt =====
-- What the daemon may write when a device appears, said without the code of the handler.
use node_disk_manager.Base.{String, false, ◌≡◌, ◌⊎◌, none, []}
use node_disk_manager.Cluster.Safe.{
  History, Write, claim_write, device_create, device_write, job_create, job_delete, table_write,
}
use node_disk_manager.Partition.Sound.{WasBlank}
use node_disk_manager.Store.Allowed.{KeepsClaims}
use node_disk_manager.Daemon.{Node, LocalDevice, no_engine, jiva}
use node_disk_manager.Daemon.Uuid.{generate_uuid}

-- The device is not used by an engine that the daemon treats specially.
abbrev pub IsIdle : LocalDevice → Type 0
IsIdle bd =
    (bd.dev_use.in_use ≡ false) ⊎ (bd.dev_use.used_by ≡ no_engine) ⊎ (bd.dev_use.used_by ≡ jiva)

-- when the device may lose what is on it
pub record MayPartition (node : Node) (bd : LocalDevice) (h : History) (path : String)
    : Type 0 where
  pub same_path : path ≡ bd.dev_path
  pub was_blank : WasBlank h path
  pub no_uuid : generate_uuid node bd ≡ none
  pub no_partitions : bd.dependent_devices.partitions ≡ []
  pub no_holders : bd.dependent_devices.holders ≡ []
  pub idle : IsIdle bd

-- A partition table is written on a device without identity and content, and resources are written
-- with their claims left alone.
abbrev pub AddsDevice : Node → LocalDevice → History → Write → Type 0
AddsDevice node bd h (claim_write c) = ⊥
AddsDevice node bd h (device_create d) = KeepsClaims h (device_create d)
AddsDevice node bd h (device_write d) = KeepsClaims h (device_write d)
AddsDevice node bd h (job_create _) = ⊥
AddsDevice node bd h (job_delete _) = ⊥
AddsDevice node bd h (table_write path _) = MayPartition node bd h path
