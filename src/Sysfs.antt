-- ===== src/Sysfs.antt =====
-- pkg/sysfs/syspath.go: what the directory of a device in /sys says of it. The contents of the
-- directories and files are parameters: the entries of a directory, and a file as a number, none for an
-- error. A number is an int64, by the word of 64 bits that represents it.
pub mod Parent
pub mod Fill
mod Tests
use node_disk_manager.Base.{
  ℕ, ◌*◌, ◌%◌, ◌^◌, String, Bool, true, false, not, ◌&&◌, ◌||◌, ◌==◌, ◌^^◌, eqb, Option, none, some,
  List, [], ◌∷◌, map, keep, split, has_prefix, get_or, if◌then◌else◌, replace_first,
}
use node_disk_manager.Daemon.{DependentBlockDevices}

-- Device
pub record SysDevice : Type 0 where
  pub device_name : String
  pub sys_path : String

-- what the program reads below the directory of a device
pub record SysFiles : Type 0 where
  pub eval_symlinks : String → Option String
  pub entries : String → Option (List String)
  pub number : String → Option ℕ

-- The loops of getParent. The outer result says whether the part of the subsystem was found: the
-- loop ends there, with a parent or without.
abbrev pub unless_same : String → String → Option String
unless_same name parent = if not (name == parent) then some parent else none

unfoldable pub parent_after_block : String → List String → Option (Option String)
parent_after_block name [] = none
parent_after_block name (part ∷ []) = if part == "block" then some none else none
parent_after_block name (part ∷ next ∷ parts) =
    let later = parent_after_block name (next ∷ parts) in
    if part == "block" then some (unless_same name next) else later

abbrev pub is_nvme : String → Bool
is_nvme part = part == "nvme" || part == "nvme-subsystem"

unfoldable pub parent_after_nvme : String → List String → Option (Option String)
parent_after_nvme name [] = none
parent_after_nvme name (part ∷ []) = if is_nvme part then some none else none
parent_after_nvme name (part ∷ next ∷ []) =
    let later = parent_after_nvme name (next ∷ []) in if is_nvme part then some none else later
parent_after_nvme name (part ∷ next ∷ namespace ∷ parts) =
    let later = parent_after_nvme name (next ∷ namespace ∷ parts) in
    if is_nvme part then some (unless_same name namespace) else later

-- getParent
unfoldable pub get_parent : SysDevice → Option String
get_parent s = elim (parent_after_block s.device_name (split b'/' s.sys_path)) [
  | some parent ↦ parent
  | none ↦ get_or (parent_after_nvme s.device_name (split b'/' s.sys_path)) none
]

module _ (files : SysFiles) where
  -- getPartitions: the entries that begin with the name of the device
  unfoldable pub get_partitions : SysDevice → Option (List String)
  get_partitions s = elim (files.entries s.sys_path) [
    | none ↦ none
    | some names ↦ some (keep (λ name. has_prefix name s.device_name) names)
  ]

  -- getHolders and getSlaves
  unfoldable pub get_holders : SysDevice → Option (List String)
  get_holders s = files.entries (s.sys_path ^^ "holders/")

  unfoldable pub get_slaves : SysDevice → Option (List String)
  get_slaves s = files.entries (s.sys_path ^^ "slaves/")

  abbrev pub add_dev_prefix : List String → List String
  add_dev_prefix names = map (λ name. "/dev/" ^^ name) names

  -- the parent with its prefix, the empty text where there is none
  abbrev pub parent_path : Option String → String
  parent_path none = ""
  parent_path (some parent) = if not (parent == "") then "/dev/" ^^ parent else ""

  -- GetDependents
  unfoldable pub get_dependents : SysDevice → DependentBlockDevices
  get_dependents s = record {
    parent = parent_path (get_parent s);
    partitions = add_dev_prefix (get_or (get_partitions s) []);
    holders = add_dev_prefix (get_or (get_holders s) []);
    slaves = add_dev_prefix (get_or (get_slaves s) []);
  }

  -- GetLogicalBlockSize, GetPhysicalBlockSize and GetHardwareSectorSize
  unfoldable pub get_logical_block_size : SysDevice → Option ℕ
  get_logical_block_size s = files.number (s.sys_path ^^ "queue/logical_block_size")

  unfoldable pub get_physical_block_size : SysDevice → Option ℕ
  get_physical_block_size s = files.number (s.sys_path ^^ "queue/physical_block_size")

  unfoldable pub get_hardware_sector_size : SysDevice → Option ℕ
  get_hardware_sector_size s = files.number (s.sys_path ^^ "queue/hw_sector_size")

  -- GetCapacityInBytes, with the product of int64 that wraps
  unfoldable pub get_capacity_in_bytes : SysDevice → Option ℕ
  get_capacity_in_bytes s = elim (files.number (s.sys_path ^^ "size")) [
    | none ↦ none
    | some number_of_blocks ↦
        if eqb number_of_blocks 0 then none else some ((number_of_blocks * 512) % 2 ^ 64)
  ]

  -- getDeviceSysPath and NewSysFsDeviceFromDevPath
  abbrev pub get_device_sys_path : String → Option String
  get_device_sys_path device_path =
      let link =
        if has_prefix device_path "/dev/"
        then "/sys/class/block/" ^^ replace_first "/dev/" "" device_path
        else device_path in
      elim (files.eval_symlinks link) [ none ↦ none | some sys_path ↦ some (sys_path ^^ "/") ]

  unfoldable pub new_sys_device : String → Option SysDevice
  new_sys_device dev_path =
      let dev_name = replace_first "/dev/" "" dev_path in
      if dev_name == "" then none else elim (get_device_sys_path dev_path) [
        | none ↦ none
        | some sys_path ↦ some (record { device_name = dev_name; sys_path = sys_path })
      ]

  -- GetDriveType; the error comes with the type Unknown
  unfoldable pub get_drive_type : SysDevice → Option String
  get_drive_type s = elim (files.number (s.sys_path ^^ "queue/rotational")) [
    | none ↦ none
    | some rotational ↦
        if eqb rotational 1 then some "HDD" else if eqb rotational 0 then some "SSD" else none
  ]
