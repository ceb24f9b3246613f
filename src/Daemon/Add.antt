-- ===== src/Daemon/Add.antt =====
-- cmd/ndm_daemonset/probe/addhandler.go: what the daemon does when a device appears. The arguments
-- `items` are the resources that were listed before. BDHierarchy is passed on: it is the argument
-- `cache`, and add_block_device returns it as it is afterwards.
use node_disk_manager.Base.{
  String, Bool, true, false, not, ◌&&◌, ◌||◌, ◌==◌, Option, none, some, List, ◌∷◌, [], StringMap,
  insert, lookup, find_first, if◌then◌else◌,
}
use node_disk_manager.Api.{BlockDevice, inactive, is_unclaimed}
use node_disk_manager.Cluster.Program.{
  Program, Outcome, done, failed, no_parent, no_identity, bad_label, unreachable_state, ret,
  update_device, ◌>>◌,
}
use node_disk_manager.Store.{
  existing_block_device, create_block_device, push_block_device, with_state,
}
use node_disk_manager.Daemon.{
  Node, LocalDevice, Hierarchy, StorageEngine, cstor, zfs_local_pv, mayastor, local_pv,
  partition_type,
}
use node_disk_manager.Daemon.Uuid.{
  generate_uuid, generate_legacy_uuid, generate_uuid_from_partition_table,
}
use node_disk_manager.Daemon.Convert.{to_device}

abbrev pub scheme_annotation : String
scheme_annotation = "internal.openebs.io/uuid-scheme"

abbrev pub fsuuid_annotation : String
fsuuid_annotation = "internal.openebs.io/fsuuid"

abbrev pub partition_uuid_annotation : String
partition_uuid_annotation = "internal.openebs.io/partition-uuid"

abbrev pub gpt_scheme : StringMap String
gpt_scheme = (scheme_annotation, "gpt") ∷ []

abbrev pub with_uuid : String → LocalDevice → LocalDevice
with_uuid uuid bd = record bd { uuid = uuid }

abbrev pub is_partition : LocalDevice → Bool
is_partition bd = bd.device_attributes.device_type == partition_type

-- the test of an annotation, in the loops below
unfoldable pub has_annotation : String → String → BlockDevice → Bool
has_annotation key value item = elim (lookup key item.meta.annotations) [
  | none ↦ false
  | some found ↦ found == value
]

-- getExistingBDWithFsUuid
unfoldable pub existing_with_fs_uuid : LocalDevice → List BlockDevice → Option BlockDevice
existing_with_fs_uuid bd items =
    if bd.fs_info.file_system_uuid == ""
    then none
    else find_first (has_annotation fsuuid_annotation bd.fs_info.file_system_uuid) items

-- getExistingBDWithPartitionUUID
unfoldable pub existing_with_partition_uuid : LocalDevice → List BlockDevice → Option BlockDevice
existing_with_partition_uuid bd items =
    if bd.partition_info.partition_table_uuid == ""
    then none
    else find_first
        (has_annotation partition_uuid_annotation bd.partition_info.partition_table_uuid) items

-- isParentDeviceInUse
unfoldable pub is_parent_in_use : Hierarchy → LocalDevice → Outcome Bool
is_parent_in_use cache bd =
    if not (is_partition bd) then done false else elim (lookup bd.dependent_devices.parent cache) [
      | none ↦ failed no_parent
      | some parent ↦ done parent.dev_use.in_use
    ]

-- DeactivateBlockDevice, whose error is only logged
abbrev pub deactivate : BlockDevice → Program (Outcome Unit) → Program (Outcome Unit)
deactivate bd next = update_device (with_state inactive bd) (λ _. next)

-- deviceInUseByMayastor and the two upgrade functions ask first whether an engine uses the device.
abbrev pub is_used_by : (StorageEngine → Bool) → LocalDevice → Bool
is_used_by p bd = bd.dev_use.in_use && p bd.dev_use.used_by

abbrev pub is_mayastor : StorageEngine → Bool
is_mayastor mayastor = true
is_mayastor _ = false

abbrev pub is_zfs : StorageEngine → Bool
is_zfs zfs_local_pv = true
is_zfs _ = false

abbrev pub is_local_pv : StorageEngine → Bool
is_local_pv local_pv = true
is_local_pv _ = false

abbrev pub is_cstor : StorageEngine → Bool
is_cstor cstor = true
is_cstor _ = false

module _ (node : Node) where
  -- createOrUpdateWithAnnotation
  unfoldable pub create_or_update :
      StringMap String → LocalDevice → Option BlockDevice → Program (Outcome Unit)
  create_or_update annotations bd existing = elim (to_device node bd) [
    | none ↦ ret (failed bad_label)
    | some bd_api ↦
        push_block_device node.namespace existing
          (record bd_api { meta = record bd_api.meta { annotations = annotations } })
  ]

  -- createOrUpdateWithFSUUID
  unfoldable pub create_or_update_with_fs_uuid :
      LocalDevice → Option BlockDevice → Program (Outcome Unit)
  create_or_update_with_fs_uuid bd =
      create_or_update
        ((scheme_annotation, "legacy") ∷ (fsuuid_annotation, bd.fs_info.file_system_uuid) ∷ []) bd

  -- createOrUpdateWithPartitionUUID
  unfoldable pub create_or_update_with_partition_uuid :
      LocalDevice → Option BlockDevice → Program (Outcome Unit)
  create_or_update_with_partition_uuid bd =
      create_or_update
        ((scheme_annotation, "legacy")
          ∷ (partition_uuid_annotation, bd.partition_info.partition_table_uuid)
          ∷ [])
        bd

  -- createBlockDeviceResourceIfNoHolders
  unfoldable pub create_if_no_holders : LocalDevice → List BlockDevice → Program (Outcome Unit)
  create_if_no_holders bd items = elim bd.dependent_devices.holders [
    | [] ↦ create_or_update gpt_scheme bd (existing_block_device items bd.uuid)
    | _ ∷ _ ↦ ret (done tt)
  ]

  -- the end of deviceInUseByZFSLocalPV: a resource with the tag of zfs-localpv
  unfoldable pub push_zfs : LocalDevice → Program (Outcome Bool)
  push_zfs bd = elim (generate_uuid_from_partition_table node bd) [
    | none ↦ ret (failed no_identity)
    | some uuid ↦ elim (to_device node (with_uuid uuid bd)) [
      | none ↦ ret (failed bad_label)
      | some bd_api ↦
          create_block_device node.namespace (record bd_api {
            meta = record bd_api.meta {
              labels = insert "openebs.io/block-device-tag" "zfs-localpv" bd_api.meta.labels;
            };
          })
          >> ret (done false)
    ]
  ]

  -- deviceInUseByZFSLocalPV, after the look at the parent
  unfoldable pub used_by_zfs : LocalDevice → Program (Outcome Bool)
  used_by_zfs bd = if is_used_by is_zfs bd then push_zfs bd else ret (done true)

  -- deviceInUseByZFSLocalPV
  unfoldable pub in_use_by_zfs : Hierarchy → LocalDevice → Program (Outcome Bool)
  in_use_by_zfs cache bd =
      if is_partition bd
      then elim (lookup bd.dependent_devices.parent cache) [
        | none ↦ ret (failed no_parent)
        | some parent ↦ if is_used_by is_zfs parent then ret (done false) else used_by_zfs bd
      ]
      else used_by_zfs bd

  -- handleUnmanagedDevices, with deviceInUseByMayastor; false ends the processing
  unfoldable pub handle_unmanaged_devices : Hierarchy → LocalDevice → Program (Outcome Bool)
  handle_unmanaged_devices cache bd =
      if is_used_by is_mayastor bd then ret (done false) else in_use_by_zfs cache bd

  -- the resource under the new identity, where there is one
  unfoldable pub existing_gpt : LocalDevice → List BlockDevice → Option BlockDevice
  existing_gpt bd items = elim (generate_uuid node bd) [
    | none ↦ none
    | some uuid ↦ existing_block_device items uuid
  ]

  -- upgradeDeviceInUseByCStor and upgradeDeviceInUseByLocalPV, which differ in the annotation: by
  -- `find` an annotated resource is looked up, and `push` writes one.
  module _ (find : LocalDevice → List BlockDevice → Option BlockDevice)
      (push : LocalDevice → Option BlockDevice → Program (Outcome Unit)) where
    -- `existingLegacyBD`, after the annotated resource was preferred
    unfoldable pub legacy_device : LocalDevice → List BlockDevice → Option BlockDevice
    legacy_device bd items = elim (find bd items) [
      | some item ↦ some item
      | none ↦ existing_block_device items (generate_legacy_uuid node bd).0
    ]

    unfoldable pub upgrade_legacy : LocalDevice → List BlockDevice → Program (Outcome Bool)
    upgrade_legacy bd items = elim (legacy_device bd items) [
      | none ↦ push (with_uuid (generate_legacy_uuid node bd).0 bd) none >> ret (done false)
      | some existing ↦
          if not (is_unclaimed existing.status.claim_state) || (generate_legacy_uuid node bd).1
          then push (with_uuid existing.meta.name bd) (some existing) >> ret (done false)
          else ret (failed unreachable_state)
    ]

    unfoldable pub upgrade_in_use : LocalDevice → List BlockDevice → Program (Outcome Bool)
    upgrade_in_use bd items = elim (existing_gpt bd items) [
      | none ↦ upgrade_legacy bd items
      | some existing ↦
          if not (is_unclaimed existing.status.claim_state)
          then ret (done true)
          else ret (failed unreachable_state)
    ]

  -- upgradeBD; false ends the processing
  unfoldable pub upgrade_bd : LocalDevice → List BlockDevice → Program (Outcome Bool)
  upgrade_bd bd items =
      if is_used_by is_local_pv bd
      then upgrade_in_use existing_with_fs_uuid create_or_update_with_fs_uuid bd items
      else if is_used_by is_cstor bd
      then upgrade_in_use existing_with_partition_uuid create_or_update_with_partition_uuid bd items
      else ret (done true)
