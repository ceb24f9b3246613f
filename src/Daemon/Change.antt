-- ===== src/Daemon/Change.antt =====
-- cmd/ndm_daemonset/probe/changehandler.go: what the daemon does when a device changes. The
-- argument `filled` is the device as FillBlockDeviceDetails leaves it, and `passes` is
-- Controller.ApplyFilter.
use node_disk_manager.Base.{
  String, Bool, true, false, not, ◌&&◌, ◌==◌, Option, none, some, List, [], ◌∷◌, length, contains,
  eqb, if◌then◌else◌,
}
use node_disk_manager.Cluster.Program.{Program, Outcome, done, failed, bad_label, no_identity, ret}
use node_disk_manager.Store.{update_block_device}
use node_disk_manager.Daemon.{Node, LocalDevice, Hierarchy, add_to_hierarchy}
use node_disk_manager.Daemon.Uuid.{generate_uuid}
use node_disk_manager.Daemon.Convert.{to_device}
use node_disk_manager.Daemon.Add.{with_uuid}

-- the loop over the new mount points
unfoldable pub all_contained : List String → List String → Bool
all_contained old [] = true
all_contained old (mount_point ∷ new) =
    let rest = all_contained old new in if not (contains old mount_point) then false else rest

-- haveEqualMountPoints
unfoldable pub have_equal_mount_points : List String → List String → Bool
have_equal_mount_points old new =
    if not (eqb (length old) (length new)) then false else all_contained old new

-- Nothing that the daemon watches has changed.
unfoldable pub is_unchanged : LocalDevice → LocalDevice → Bool
is_unchanged old new =
    eqb old.storage new.storage
    && old.fs_info.file_system == new.fs_info.file_system
    && have_equal_mount_points old.fs_info.mount_point new.fs_info.mount_point

module _ (node : Node) (passes : LocalDevice → Bool) where
  -- the UUID that the device had, or else a generated one
  unfoldable pub uuid_or_generated : LocalDevice → Option String
  uuid_or_generated bd = if bd.uuid == "" then generate_uuid node bd else some bd.uuid

  -- the update of the resource
  unfoldable pub update_changed : LocalDevice → Program (Outcome Unit)
  update_changed bd = elim (to_device node bd) [
    | none ↦ ret (failed bad_label)
    | some bd_api ↦
        update_block_device
          (record bd_api { meta = record bd_api.meta { namespace = node.namespace } }) none
  ]

  -- changeBlockDevice
  unfoldable pub change_block_device :
      Hierarchy → LocalDevice → LocalDevice → Hierarchy × Program (Outcome Unit)
  change_block_device cache bd filled = elim (uuid_or_generated filled) [
    | none ↦ (cache, ret (failed no_identity))
    | some uuid ↦
        let named = with_uuid uuid filled in
        if is_unchanged bd named then (cache, ret (done tt)) else (
          (add_to_hierarchy named cache).0,
          if not (passes named) then ret (done tt) else update_changed named,
        )
  ]
