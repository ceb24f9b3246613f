-- ===== src/Mount/Util/Tests.antt =====
-- The mount points of a partition in a file of three lines.
use node_disk_manager.Base.{String, some, List, [], ◌∷◌, ◌≡◌, refl, inl, split, has_prefix}
use node_disk_manager.Mount.Util.{
  DeviceMountAttr, attr_found, get_device_mount_attr, get_mount_name, mount_name_of, scan,
  scan_line, scan_result, take_line, merge_attrs,
}
use node_disk_manager.Mount.Util.Sound.{get_device_mount_attr_sound, IsMounted}

abbrev lines : List String
lines = "proc /proc proc rw 0 0" ∷ "/dev/sda4 / ext4 rw 0 0" ∷ "/dev/sda4 /var ext4 rw 0 0" ∷ []

abbrev root_attr : DeviceMountAttr
root_attr = record { dev_path = ""; mount_point = "/" ∷ "/var" ∷ []; file_system = "ext4" }

root_is_found :
    get_device_mount_attr (get_mount_name "/dev/sda4") (some lines) ≡ attr_found root_attr
unfolding get_device_mount_attr get_mount_name mount_name_of scan scan_line scan_result take_line
    merge_attrs split has_prefix
root_is_found = refl

get_device_mount_attr_sound_example : IsMounted "/dev/sda4" lines "/" "ext4"
get_device_mount_attr_sound_example =
    get_device_mount_attr_sound "/dev/sda4" lines root_attr root_is_found "/" (inl refl)
