-- ===== src/Cluster/Disk.antt =====
-- What the daemon asks of a disk itself: the calls of go-diskfs and of libblkid that
-- pkg/partition makes. They are not part of the repository, so every answer is possible.
use node_disk_manager.Base.{ℕ, String, List, Bool}

-- gpt.Partition, whose type is always the Linux file system
pub record Partition : Type 0 where
  pub start : ℕ
  pub end : ℕ
  pub name : String

-- gpt.Table
pub record PartitionTable : Type 0 where
  pub logical_sector_size : ℕ
  pub protective_mbr : Bool
  pub partitions : List Partition

-- diskfs.Open, Disk.GetPartitionTable, DeviceIdentifier.GetOnDiskFileSystem and Disk.Partition, for
-- the device with the given path. The answer is none for an error. The text of the answer matters
-- for the file system only, where no error is reported and none is the empty text.
pub data DiskRequest : Type 0 where
  open_disk read_table read_file_system : String → DiskRequest
  write_table : String → PartitionTable → DiskRequest
