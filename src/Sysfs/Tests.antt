-- ===== src/Sysfs/Tests.antt =====
-- A partition of an NVMe drive.
use node_disk_manager.Base.{some, ◌≡◌, ◌≢◌, refl, split}
use node_disk_manager.Mount.Util.{get_parent_block_device}
use node_disk_manager.Sysfs.{SysDevice, get_parent, parent_after_block, parent_after_nvme}
use node_disk_manager.Sysfs.Parent.{get_parent_agrees}

abbrev partition : SysDevice
partition = record {
  device_name = "nvme0n1p1";
  sys_path = "/sys/devices/pci0/nvme/nvme0/nvme0n1/nvme0n1p1/";
}

partition_has_parent : get_parent partition ≡ some "nvme0n1"
unfolding get_parent parent_after_block parent_after_nvme split
partition_has_parent = refl

get_parent_agrees_example :
    (get_parent_block_device "/sys/devices/pci0/nvme/nvme0/nvme0n1/nvme0n1p1/" ≡ some "nvme0n1")
    × ("nvme0n1" ≢ partition.device_name)
get_parent_agrees_example = get_parent_agrees partition "nvme0n1" partition_has_parent
