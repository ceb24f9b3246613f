-- ===== src/Daemon.antt =====
-- blockdevice/blockdevice.go: the device as the daemon keeps it, and what the daemon's functions
-- take from their environment. LocalDevice is the source's blockdevice.BlockDevice, with the
-- embedded Identifier written out; the S.M.A.R.T. values, which go to the metrics only, and the
-- status, which no code here reads, are left out.
pub mod Uuid
pub mod Convert
pub mod Add
pub mod Allowed
pub mod Sound
pub mod Checked
pub mod Published
pub mod Added
pub mod Delete
pub mod Change
pub mod Events
pub mod Filters
pub mod Probes
pub mod Moved
pub mod Handled
pub mod Gone
pub mod Changed
pub mod Roundtrip
pub mod Progress
mod Tests
pub mod Publish
use node_disk_manager.Base.{
  ℕ, String, Bool, List, ◌∷◌, [], Option, StringMap, insert, lookup, is_some,
}
use node_disk_manager.Api.{BlockDevice}
use node_disk_manager.Features.Gates.{FeatureFlag}

pub record FileSystemInformation : Type 0 where
  pub file_system_uuid : String
  pub file_system : String
  pub mount_point : List String

pub record DeviceAttribute : Type 0 where
  pub device_type : String
  pub drive_type : String
  pub id_type : String
  pub physical_block_size : ℕ
  pub logical_block_size : ℕ
  pub hardware_sector_size : ℕ
  pub wwn : String
  pub vendor : String
  pub model : String
  pub serial : String
  pub firmware_revision : String
  pub compliance : String

pub record DevLink : Type 0 where
  pub kind : String
  pub links : List String

pub record PartitionInformation : Type 0 where
  pub partition_number : ℕ
  pub partition_entry_uuid : String
  pub partition_table_uuid : String
  pub partition_table_type : String

pub record DeviceMapperInformation : Type 0 where
  pub dm_uuid : String
  pub dev_mapper_path : String

pub record DependentBlockDevices : Type 0 where
  pub parent : String
  pub partitions : List String
  pub holders : List String
  pub slaves : List String

-- `no_engine` is the empty string
pub data StorageEngine : Type 0 where
  no_engine cstor zfs_local_pv mayastor local_pv jiva : StorageEngine

pub record DeviceUsage : Type 0 where
  pub in_use : Bool
  pub used_by : StorageEngine

pub record LocalDevice : Type 0 where
  pub uuid : String
  pub sys_path : String
  pub dev_path : String
  pub node_attributes : StringMap String
  pub labels : StringMap String
  pub fs_info : FileSystemInformation
  pub storage : ℕ
  pub dev_links : List DevLink
  pub device_attributes : DeviceAttribute
  pub dm_info : DeviceMapperInformation
  pub dev_use : DeviceUsage
  pub partition_info : PartitionInformation
  pub dependent_devices : DependentBlockDevices

abbrev pub partition_type : String
partition_type = "partition"

abbrev pub device_mapper_device_types : List String
device_mapper_device_types = "dm" ∷ "lvm" ∷ "crypt" ∷ "mpath" ∷ []

-- Hierarchy, the daemon's cache of all devices by path
abbrev pub Hierarchy : Type 0
Hierarchy = StringMap LocalDevice

-- MetaConfig of the daemon's configuration, as far as the labels of devices need it
pub record MetaConfig : Type 0 where
  pub key : String
  pub type : String

-- What the functions of the daemon read besides their arguments: the host name, the namespace and the
-- attributes of the node, the
-- feature gates and the configuration (none where there is none). Not in the repository are the
-- md5 sum (util.Hash), the search by a JSON path, none for an error, and the rule for label values;
-- `find_results` takes the path as the configuration has it, trimmed.
pub record Node : Type 0 where
  pub hash : String → String
  pub host_name : String
  pub namespace : String
  pub node_attributes : StringMap String
  pub gates : FeatureFlag
  pub meta_configs : Option (List MetaConfig)
  pub find_results : String → BlockDevice → Option (List (List String))
  pub is_valid_label_value : String → Bool

-- addBlockDeviceToHierarchyCache: the cache after it, and whether the device was there
unfoldable pub add_to_hierarchy : LocalDevice → Hierarchy → Hierarchy × Bool
add_to_hierarchy bd cache = (insert bd.dev_path bd cache, is_some (lookup bd.dev_path cache))
