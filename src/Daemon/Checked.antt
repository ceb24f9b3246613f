-- ===== src/Daemon/Checked.antt =====
-- The checks with which adding a device begins: which writes they make, and what holds where the
-- processing goes on.
pub mod Unmanaged
pub mod Upgraded
use node_disk_manager.Base.{
  ◌∙◌, Bool, true, false, not, Bool-cases, Option, none, some, Option-cases, List, ◌≡◌, ◌⊎◌, ◌≢◌,
  inl, inr, refl, lookup, ◌||◌, insert,
}
use node_disk_manager.Api.{BlockDevice, is_unclaimed}
use node_disk_manager.Cluster.Program.{Program, Outcome, done, failed, ret, ◌>>◌}
use node_disk_manager.Cluster.Safe.{History, Safe, Safe->>=, Any, Then}
use node_disk_manager.Cluster.Mono.{Safe-mono}
use node_disk_manager.Store.{push_block_device, create_block_device}
use node_disk_manager.Store.Allowed.{KeepsClaims}
use node_disk_manager.Store.Sound.{push_known-Safe}
use node_disk_manager.Daemon.{Node, LocalDevice, Hierarchy}
use node_disk_manager.Daemon.Uuid.{
  generate_uuid, generate_legacy_uuid, generate_uuid_from_partition_table,
}
use node_disk_manager.Daemon.Convert.{to_device}
use node_disk_manager.Daemon.Convert.Status.{to_device-unclaimed}
use node_disk_manager.Daemon.Add.{
  is_parent_in_use, existing_with_partition_uuid, existing_with_fs_uuid,
  create_or_update_with_partition_uuid, create_or_update_with_fs_uuid, push_zfs, used_by_zfs,
  in_use_by_zfs, handle_unmanaged_devices, is_used_by, is_zfs, is_mayastor, is_local_pv, is_cstor,
  legacy_device, upgrade_legacy, existing_gpt, upgrade_in_use, upgrade_bd, with_uuid, is_partition,
}
use node_disk_manager.Daemon.Sound.{
  partition_uuid-WasRead, create_or_update-Safe, fs_uuid-WasRead, existing-WasRead, WasRead,
  AllRead,
}
use node_disk_manager.Daemon.Publish.{after_parent, check_in_use, after_unmanaged}
use node_disk_manager.Daemon.Checked.Unmanaged.{
  handle_unmanaged_devices-Safe, OnlyIf-mono, OnlyIf, IsUnmanaged,
}
use node_disk_manager.Daemon.Checked.Upgraded.{upgrade_bd-Safe, IsUpgraded}

module _ (node : Node) where
  -- What is known of a device after the checks.
  abbrev pub Passed : Hierarchy → LocalDevice → Type 0
  Passed cache bd = IsUnmanaged bd × (is_parent_in_use cache bd ≡ done false) × IsUpgraded node bd

  module _ (cache : Hierarchy) (bd : LocalDevice) (items : List BlockDevice) where
    after_parent-Safe :
        (h : History)
        → IsUnmanaged bd
        → AllRead items h
        → (o : Outcome Bool) → is_parent_in_use cache bd ≡ o
        → Safe KeepsClaims
            (OnlyIf (λ h'. Passed cache bd × AllRead items h'))
            h
            (after_parent node bd items o)
    unfolding after_parent
    after_parent-Safe h p all (failed e) same = tt
    after_parent-Safe h p all (done true) same = tt
    after_parent-Safe h p all (done false) same =
        Safe-mono KeepsClaims KeepsClaims (λ h w p. p) _ _
          (OnlyIf-mono (λ h'. IsUpgraded node bd × AllRead items h')
            (λ h'. Passed cache bd × AllRead items h') (λ h' q. ((p, same, q.0), q.1)))
          (upgrade_bd node bd items) h (upgrade_bd-Safe node h bd items all)

    after_unmanaged-Safe :
        (h : History) (o : Outcome Bool)
        → OnlyIf (λ h'. IsUnmanaged bd × AllRead items h') h o
        → Then KeepsClaims
            (OnlyIf (λ h'. Passed cache bd × AllRead items h'))
            (after_unmanaged node cache bd items)
            h
            o
    unfolding after_unmanaged
    after_unmanaged-Safe h (failed e) p = tt
    after_unmanaged-Safe h (done false) p = tt
    after_unmanaged-Safe h (done true) (p, all) =
        after_parent-Safe h p all (is_parent_in_use cache bd) refl

    pub check_in_use-Safe :
        (h : History)
        → AllRead items h
        → Safe KeepsClaims
            (OnlyIf (λ h'. Passed cache bd × AllRead items h'))
            h
            (check_in_use node cache bd items)
    unfolding check_in_use
    check_in_use-Safe h all =
        Safe->>= KeepsClaims (OnlyIf (λ h'. Passed cache bd × AllRead items h'))
          (after_unmanaged node cache bd items) (handle_unmanaged_devices node cache bd) h
          (Safe-mono KeepsClaims KeepsClaims (λ h w p. p) _ _ after_unmanaged-Safe
            (handle_unmanaged_devices node cache bd) h
            (handle_unmanaged_devices-Safe node h cache bd (AllRead items) all))
