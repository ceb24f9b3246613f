-- ===== src/Daemon/Delete.antt =====
-- cmd/ndm_daemonset/probe/deletehandler.go: what the daemon does when a device disappears.
use node_disk_manager.Base.{
  String, Bool, true, false, Option, none, some, List, lookup, erase, if◌then◌else◌,
}
use node_disk_manager.Api.{BlockDevice}
use node_disk_manager.Cluster.Program.{Program, Outcome, done, ret}
use node_disk_manager.Store.{existing_block_device}
use node_disk_manager.Daemon.{Node, LocalDevice, Hierarchy}
use node_disk_manager.Daemon.Uuid.{
  generate_uuid, generate_legacy_uuid, generate_uuid_from_partition_table,
}
use node_disk_manager.Daemon.Add.{
  existing_with_fs_uuid, existing_with_partition_uuid, is_partition, deactivate,
}

-- removeBlockDeviceFromHierarchyCache: the cache after it, and whether the device was there
unfoldable pub remove_from_hierarchy : LocalDevice → Hierarchy → Hierarchy × Bool
remove_from_hierarchy bd cache = elim (lookup bd.dev_path cache) [
  | none ↦ (cache, false)
  | some _ ↦ (erase bd.dev_path cache, true)
]

-- the first attempt that finds a resource
abbrev pub or_else : Option BlockDevice → Option BlockDevice → Option BlockDevice
or_else none other = other
or_else (some item) _ = some item

abbrev pub existing_named : Option String → List BlockDevice → Option BlockDevice
existing_named none items = none
existing_named (some uuid) items = existing_block_device items uuid

module _ (node : Node) where
  -- the resource that deleteBlockDevice deactivates
  unfoldable pub resource_of : LocalDevice → List BlockDevice → Option BlockDevice
  resource_of bd items = or_else (existing_named (generate_uuid node bd) items) (
      or_else (existing_named (generate_uuid_from_partition_table node bd) items) (
        or_else (existing_with_fs_uuid bd items) (
          or_else (if is_partition bd then none else existing_with_partition_uuid bd items)
            (existing_block_device items (generate_legacy_uuid node bd).0))))

  unfoldable pub deactivate_found : Option BlockDevice → Program (Outcome Unit)
  deactivate_found none = ret (done tt)
  deactivate_found (some item) = deactivate item (ret (done tt))

  -- deleteBlockDevice; its error is always nil
  unfoldable pub delete_block_device :
      Hierarchy → LocalDevice → List BlockDevice → Hierarchy × Program (Outcome Unit)
  unfolding deactivate_found
  delete_block_device cache bd items =
      let removed = remove_from_hierarchy bd cache in
      (removed.0, if removed.1 then deactivate_found (resource_of bd items) else ret (done tt))
