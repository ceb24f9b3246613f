-- ===== src/Daemon/Uuid.antt =====
-- cmd/ndm_daemonset/probe/uuid.go: the name of the resource of a device.
use node_disk_manager.Base.{
  String, Bool, true, false, not, ◌&&◌, ◌||◌, ◌==◌, Option, none, some, List, ◌∷◌, [], ◌^^◌,
  contains, if◌then◌else◌,
}
use node_disk_manager.Features.Gates.{is_enabled, partition_table_uuid}
use node_disk_manager.Daemon.{Node, LocalDevice, partition_type, device_mapper_device_types}

-- The field from which generateUUID makes the identity; none where there is no such field.
unfoldable pub uuid_field : Node → LocalDevice → Option String
uuid_field node bd =
    let a = bd.device_attributes in
    if a.device_type == "loop"
    then some (node.host_name ^^ bd.dev_path)
    else if contains device_mapper_device_types a.device_type
    then some bd.dm_info.dm_uuid
    else if a.device_type == partition_type
    then some bd.partition_info.partition_entry_uuid
    else if not (a.wwn == "")
    then some (a.wwn ^^ a.serial)
    else if not (bd.fs_info.file_system_uuid == "")
    then some bd.fs_info.file_system_uuid
    else if is_enabled partition_table_uuid node.gates
        && not (bd.partition_info.partition_table_type == "")
    then (if bd.partition_info.partition_table_uuid == ""
        then none
        else some bd.partition_info.partition_table_uuid)
    else none

-- blockdevice.BlockDevicePrefix + util.Hash(uuidField)
unfoldable pub uuid_of : Node → String → String
uuid_of node field = "blockdevice-" ^^ node.hash field

-- generateUUID; none where the second result is false
unfoldable pub generate_uuid : Node → LocalDevice → Option String
generate_uuid node bd = elim (uuid_field node bd) [
  | none ↦ none
  | some field ↦ some (uuid_of node field)
]

abbrev pub local_disk_models : List String
local_disk_models = "EphemeralDisk" ∷ "Virtual_disk" ∷ "QEMU_HARDDISK" ∷ []

unfoldable pub legacy_uses_path : LocalDevice → Bool
legacy_uses_path bd =
    bd.device_attributes.id_type == "" || contains local_disk_models bd.device_attributes.model

-- generateLegacyUUID
unfoldable pub generate_legacy_uuid : Node → LocalDevice → String × Bool
generate_legacy_uuid node bd =
    let a = bd.device_attributes in
    let uid = a.wwn ^^ a.model ^^ a.serial ^^ a.vendor in
    if legacy_uses_path bd
    then (uuid_of node (uid ^^ node.host_name ^^ bd.dev_path), true)
    else (uuid_of node uid, false)

-- generateUUIDFromPartitionTable
unfoldable pub generate_uuid_from_partition_table : Node → LocalDevice → Option String
generate_uuid_from_partition_table node bd =
    let field = bd.partition_info.partition_table_uuid in
    if not (field == "") then some (uuid_of node field) else none
