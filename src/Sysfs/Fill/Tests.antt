-- ===== src/Sysfs/Fill/Tests.antt =====
-- A partition of 131072 sectors on a disk with blocks of 4096 bytes.
use node_disk_manager.Base.{
  arith, some, none, true, false, ◌==◌, ◌*◌, ◌≡◌, refl, [], if◌then◌else◌, has_prefix,
  replace_first,
}
use node_disk_manager.Features.Gates.{new_feature_gate}
use node_disk_manager.Daemon.{Node, LocalDevice, no_engine}
use node_disk_manager.Sysfs.{get_physical_block_size, SysFiles, SysDevice, new_sys_device}
use node_disk_manager.Sysfs.Fill.{sized_device, fill_sysfs}
use node_disk_manager.Sysfs.Fill.Sizes.{KeepsKnown, fill_sysfs-KeepsKnown, fill_sysfs_capacity}

abbrev node : Node
node = record {
  hash = λ s. s;
  host_name = "node1";
  namespace = "openebs";
  node_attributes = [];
  gates = new_feature_gate;
  meta_configs = none;
  find_results = λ _ _. none;
  is_valid_label_value = λ _. true;
}

-- the partition, with its size not known yet
abbrev partition : LocalDevice
partition = record {
  uuid = "";
  sys_path = "/sys/block/sdb/sdb1";
  dev_path = "/dev/sdb1";
  node_attributes = [];
  labels = [];
  fs_info = record { file_system_uuid = ""; file_system = ""; mount_point = [] };
  storage = 0;
  dev_links = [];
  device_attributes = record {
    device_type = "partition";
    drive_type = "";
    id_type = "partition";
    physical_block_size = 0;
    logical_block_size = 512;
    hardware_sector_size = 0;
    wwn = "w1";
    vendor = "ATA";
    model = "M1";
    serial = "S1";
    firmware_revision = "";
    compliance = "";
  };
  dm_info = record { dm_uuid = ""; dev_mapper_path = "" };
  dev_use = record { in_use = false; used_by = no_engine };
  partition_info = record {
    partition_number = 1;
    partition_entry_uuid = "p1";
    partition_table_uuid = "";
    partition_table_type = "";
  };
  dependent_devices = record { parent = "/dev/sdb"; partitions = []; holders = []; slaves = [] };
}

abbrev files : SysFiles
files = record {
  eval_symlinks = λ path. some path;
  entries = λ _. none;
  number = λ path.
      if path == "/sys/class/block/sdb1/size"
      then some 131072
      else if path == "/sys/class/block/sdb/queue/physical_block_size"
      then some 4096
      else none;
}

abbrev sdb1 : SysDevice
sdb1 = record { device_name = "sdb1"; sys_path = "/sys/class/block/sdb1/" }

finds_sdb1 : new_sys_device files "/dev/sdb1" ≡ some sdb1
unfolding new_sys_device has_prefix replace_first
finds_sdb1 = refl

-- The block size comes from the disk.
block_size_of_disk : (fill_sysfs files partition).device_attributes.physical_block_size ≡ 4096
unfolding fill_sysfs sized_device new_sys_device get_physical_block_size has_prefix replace_first
block_size_of_disk = refl

fill_sysfs-KeepsKnown_example : KeepsKnown node partition (fill_sysfs files partition)
fill_sysfs-KeepsKnown_example = fill_sysfs-KeepsKnown files node partition

fill_sysfs_capacity_example : (fill_sysfs files partition).storage ≡ 131072 * 512
fill_sysfs_capacity_example =
    fill_sysfs_capacity files partition sdb1 131072 finds_sdb1 refl (ground arith) (ground arith)
