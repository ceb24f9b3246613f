-- ===== src/Sysfs/Fill.antt =====
-- cmd/ndm_daemonset/probe/sysfsprobe.go: FillBlockDeviceDetails of the sysfs probe. A conversion to
-- uint32 keeps the last 32 bits.
pub mod Sizes
mod Tests
use node_disk_manager.Base.{
  ℕ, ◌%◌, ◌^◌, String, ◌||◌, ◌==◌, eqb, Option, none, some, get_or, if◌then◌else◌,
}
use node_disk_manager.Daemon.{LocalDevice, DeviceAttribute, partition_type}
use node_disk_manager.Sysfs.{
  SysFiles, SysDevice, new_sys_device, get_capacity_in_bytes, get_logical_block_size,
  get_physical_block_size, get_hardware_sector_size, get_drive_type,
}

-- a size that is filled in where it is not known; an error counts as 0
abbrev pub size_or : ℕ → Option ℕ → ℕ
size_or known read = if eqb known 0 then get_or read 0 % 2 ^ 32 else known

abbrev pub drive_type_or : String → Option String → String
drive_type_or known read =
    if known == "" || known == "Unknown" then get_or read "Unknown" else known

-- the capacity; an error counts as 0
abbrev pub with_capacity : LocalDevice → Option ℕ → LocalDevice
with_capacity bd capacity = record bd { storage = get_or capacity 0 }

module _ (files : SysFiles) where
  abbrev pub fill_attributes : SysDevice → DeviceAttribute → DeviceAttribute
  fill_attributes s a = record a {
    logical_block_size = size_or a.logical_block_size (get_logical_block_size files s);
    physical_block_size = size_or a.physical_block_size (get_physical_block_size files s);
    hardware_sector_size = size_or a.hardware_sector_size (get_hardware_sector_size files s);
    drive_type = drive_type_or a.drive_type (get_drive_type files s);
  }

  abbrev pub fill_from : LocalDevice → SysDevice → LocalDevice
  fill_from bd s = record bd { device_attributes = fill_attributes s bd.device_attributes }

  -- The device whose sizes are used, a partition's parent or the device itself; none where the
  -- parent cannot be found.
  unfoldable pub sized_device : LocalDevice → SysDevice → Option SysDevice
  sized_device bd s =
      if bd.device_attributes.device_type == partition_type
      then (if bd.dependent_devices.parent == ""
          then none
          else new_sys_device files bd.dependent_devices.parent)
      else some s

  -- FillBlockDeviceDetails
  unfoldable pub fill_sysfs : LocalDevice → LocalDevice
  fill_sysfs bd = elim (new_sys_device files bd.dev_path) [
    | none ↦ bd
    | some s ↦ elim (sized_device bd s) [
      | none ↦ with_capacity bd (get_capacity_in_bytes files s)
      | some sized ↦ fill_from (with_capacity bd (get_capacity_in_bytes files s)) sized
    ]
  ]
