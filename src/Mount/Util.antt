-- ===== src/Mount/Util.antt =====
-- pkg/mount/mountutil.go: what a mounts file says of a device. The lines of the file are an argument;
-- reading a part of a line that is not there panics. `eval_symlinks` is filepath.EvalSymlinks, none
-- for an error, and `to_lower` is strings.ToLower. The files themselves are not modelled.
pub mod Sound
mod Tests
use node_disk_manager.Base.{
  ◌^^◌, trim_space, String, Bool, true, false, not, ◌&&◌, ◌||◌, ◌==◌, Option, none, some, List, [],
  ◌∷◌, ◌++◌, split, has_prefix, if◌then◌else◌,
}

pub record DeviceMountAttr : Type 0 where
  pub dev_path : String
  pub mount_point : List String
  pub file_system : String

abbrev pub no_attr : DeviceMountAttr
no_attr = record { dev_path = ""; mount_point = []; file_system = "" }

-- what is made of a line
pub data LineResult : Type 0 where
  no_match panics : LineResult
  matched : DeviceMountAttr → LineResult

-- the result for a file
pub data MountResult : Type 0 where
  attr_found : DeviceMountAttr → MountResult
  not_found file_error index_panic : MountResult

-- mergeDeviceMountAttrs
abbrev pub with_dev_path : DeviceMountAttr → DeviceMountAttr → DeviceMountAttr
with_dev_path ma mb = if ma.dev_path == "" then record ma { dev_path = mb.dev_path } else ma

abbrev pub with_file_system : DeviceMountAttr → DeviceMountAttr → DeviceMountAttr
with_file_system ma mb =
    if ma.file_system == "" then record ma { file_system = mb.file_system } else ma

abbrev pub with_mount_points : DeviceMountAttr → DeviceMountAttr → DeviceMountAttr
with_mount_points ma mb =
    if not (ma.file_system == "") && ma.file_system == mb.file_system
    then record ma { mount_point = ma.mount_point ++ mb.mount_point }
    else ma

unfoldable pub merge_attrs : DeviceMountAttr → DeviceMountAttr → DeviceMountAttr
merge_attrs ma mb =
    let first = with_dev_path ma mb in
    if not (first.dev_path == mb.dev_path)
    then first
    else with_mount_points (with_file_system first mb) mb

-- getMountName, with the parts of the line
unfoldable pub mount_name_of : String → List String → LineResult
mount_name_of dev_path [] = panics
mount_name_of dev_path (device ∷ []) = if device == dev_path then panics else no_match
mount_name_of dev_path (device ∷ mount_point ∷ []) = if device == dev_path then panics else no_match
mount_name_of dev_path (device ∷ mount_point ∷ file_system ∷ options) =
    if device == dev_path
    then matched
        (record { dev_path = ""; mount_point = mount_point ∷ []; file_system = file_system })
    else no_match

unfoldable pub get_mount_name : String → String → LineResult
get_mount_name dev_path line =
    if line == "" then no_match else mount_name_of dev_path (split b' ' line)

-- what is left of a text after a prefix that it has
abbrev pub cut_prefix : String → String → String
cut_prefix s String.[] = s
cut_prefix String.[] (String.◌∷◌ d prefix) = ""
cut_prefix (String.◌∷◌ c s) (String.◌∷◌ d prefix) = cut_prefix s prefix

-- strings.Replace(s, old, "", 1)
unfoldable pub remove_first : String → String → String
remove_first old String.[] = ""
remove_first old (String.◌∷◌ c s) =
    let later = remove_first old s in
    if has_prefix (String.◌∷◌ c s) old then cut_prefix (String.◌∷◌ c s) old else String.◌∷◌ c later

module _ (eval_symlinks : String → Option String) where
  -- getDeviceName
  unfoldable pub get_device_name : String → String
  get_device_name dev_path =
      if has_prefix dev_path "/dev/mapper"
      then elim (eval_symlinks dev_path) [ none ↦ "" | some name ↦ remove_first "/dev/" name ]
      else remove_first "/dev/" dev_path

  -- getPartitionName, with the parts of the line
  unfoldable pub partition_name_of : String → List String → LineResult
  partition_name_of mount_point [] = panics
  partition_name_of mount_point (device ∷ []) = panics
  partition_name_of mount_point (device ∷ mounted_on ∷ options) =
      if mounted_on == mount_point
      then matched
          (record { dev_path = get_device_name device; mount_point = []; file_system = "" })
      else no_match

  unfoldable pub get_partition_name : String → String → LineResult
  get_partition_name mount_point line =
      if line == "" then no_match else partition_name_of mount_point (split b' ' line)

-- the loop of getDeviceMountAttr; none is a panic
abbrev pub Scan : Type 0
Scan = Bool × DeviceMountAttr

unfoldable pub take_line : LineResult → Scan → Option Scan
take_line no_match st = some st
take_line panics st = none
take_line (matched attr) st = some (true, merge_attrs st.1 attr)

unfoldable pub scan_line : (String → LineResult) → String → Scan → Option Scan
scan_line fn line st = if not (has_prefix line "/dev") then some st else take_line (fn line) st

unfoldable pub scan : (String → LineResult) → List String → Scan → Option Scan
scan fn [] st = some st
scan fn (line ∷ lines) st = elim (scan_line fn line st) [
  | none ↦ none
  | some next ↦ scan fn lines next
]

unfoldable pub scan_result : Option Scan → MountResult
scan_result none = index_panic
scan_result (some (true, attr)) = attr_found attr
scan_result (some (false, attr)) = not_found

-- getDeviceMountAttr; none where the file cannot be opened
unfoldable pub get_device_mount_attr : (String → LineResult) → Option (List String) → MountResult
unfolding scan_result
get_device_mount_attr fn none = file_error
get_device_mount_attr fn (some lines) = scan_result (scan fn lines (false, no_attr))

-- getParentBlockDevice: the loop for the subsystem block, and then that for nvme
unfoldable pub after_block : List String → Option String
after_block [] = none
after_block (part ∷ []) = none
after_block (part ∷ next ∷ parts) =
    let later = after_block (next ∷ parts) in if part == "block" then some next else later

unfoldable pub after_nvme : List String → Option String
after_nvme [] = none
after_nvme (part ∷ []) = none
after_nvme (part ∷ instance_name ∷ []) = none
after_nvme (part ∷ instance_name ∷ namespace ∷ parts) =
    let later = after_nvme (instance_name ∷ namespace ∷ parts) in
    if part == "nvme" || part == "nvme-subsystem" then some namespace else later

unfoldable pub get_parent_block_device : String → Option String
get_parent_block_device sys_path = elim (after_block (split b'/' sys_path)) [
  | some disk ↦ some disk
  | none ↦ after_nvme (split b'/' sys_path)
]

-- parseRootDeviceLink: the loop over the arguments of a line; `none` inside is an error
module _ (to_lower : String → String) where
  unfoldable pub root_of_spec : List String → Option String
  root_of_spec [] = none
  root_of_spec (spec ∷ []) = if has_prefix spec "/dev" then some spec else none
  root_of_spec (kind ∷ identifier ∷ more) =
      some ("/dev/disk/by-" ^^ to_lower kind ^^ "/" ^^ identifier)

  unfoldable pub root_of_args : List String → Option (Option String)
  root_of_args [] = none
  root_of_args (arg ∷ args) =
      let later = root_of_args args in
      if not (has_prefix arg "root=")
      then later
      else some (root_of_spec (split b'=' (cut_prefix arg "root=")))

  unfoldable pub root_of_lines : List String → Option String
  root_of_lines [] = none
  root_of_lines (line ∷ lines) =
      let later = root_of_lines lines in
      if trim_space line == ""
      then later
      else elim (root_of_args (split b' ' (trim_space line))) [ none ↦ later | some root ↦ root ]
