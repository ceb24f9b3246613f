-- ===== src/Daemon/Progress.antt =====
-- A new disk gets its resource.
use node_disk_manager.Base.{
  ◌∙◌, ◌∷◌, none, [], some, String, Bool, true, false, ◌&&◌, List, ◌≡◌, refl, ap,
}
use node_disk_manager.Api.{BlockDevice}
use node_disk_manager.Cluster.Program.{ok, not_found, err, done, ret, handle}
use node_disk_manager.Daemon.{add_to_hierarchy, Node, LocalDevice, Hierarchy, StorageEngine}
use node_disk_manager.Daemon.Add.{
  create_if_no_holders, create_or_update, with_uuid, gpt_scheme, is_partition, is_used_by, is_zfs,
  is_mayastor, is_local_pv, is_cstor, is_parent_in_use, used_by_zfs, in_use_by_zfs,
  handle_unmanaged_devices, upgrade_bd,
}
use node_disk_manager.Daemon.Publish.{
  publish, publish_new, add_checked, add_block_device, after_unmanaged, after_parent, check_in_use,
}
use node_disk_manager.Cluster.Run.{run-handle, sends, run, Replies}
use node_disk_manager.Daemon.Uuid.{generate_uuid}
use node_disk_manager.Daemon.Convert.{to_device}
use node_disk_manager.Store.{
  push_block_device, update_existing, create_block_device, existing_block_device,
}
use node_disk_manager.Cluster.Safe.{device_create}

-- the resource as it is created
abbrev pub created : Node → BlockDevice → BlockDevice
created node b = record b {
  meta = record b.meta { annotations = gpt_scheme; namespace = node.namespace };
}

module _ (node : Node) (cache : Hierarchy) (bd : LocalDevice) (items : List BlockDevice)
    (whole : is_partition bd ≡ false) (unused : bd.dev_use.in_use ≡ false) where
  unused_by : (p : StorageEngine → Bool) → is_used_by p bd ≡ false
  unused_by p = ap (λ b. b && p bd.dev_use.used_by) unused

  unmanaged : handle_unmanaged_devices node cache bd ≡ ret (done true)
  unfolding handle_unmanaged_devices in_use_by_zfs used_by_zfs
  unmanaged =
      rw (unused_by is_mayastor, handle_unmanaged_devices)
        (rw (whole, in_use_by_zfs) (rw (unused_by is_zfs, used_by_zfs) refl))

  no_parent_in_use : is_parent_in_use cache bd ≡ done false
  unfolding is_parent_in_use
  no_parent_in_use = rw (whole, is_parent_in_use) refl

  no_upgrade : upgrade_bd node bd items ≡ ret (done true)
  unfolding upgrade_bd
  no_upgrade = rw (unused_by is_local_pv, upgrade_bd) (rw (unused_by is_cstor) refl)

  checks_pass : check_in_use node cache bd items ≡ ret (done true)
  unfolding check_in_use after_unmanaged after_parent
  checks_pass = rw (unmanaged, check_in_use) (rw (no_parent_in_use, after_unmanaged) no_upgrade)

  module _ (s : Replies) (uuid : String) (b answer : BlockDevice)
      (named : generate_uuid node bd ≡ some uuid)
      (made : to_device node (with_uuid uuid bd) ≡ some b)
      (no_partitions : bd.dependent_devices.partitions ≡ [])
      (no_holders : bd.dependent_devices.holders ≡ [])
      (unlisted : existing_block_device items uuid ≡ none) (absent : s.device uuid ≡ err not_found)
      (accepts : s.device_create (created node b) ≡ ok answer) where
    run-create_or_update :
        run s (create_or_update node gpt_scheme (with_uuid uuid bd) none)
        ≡ (device_create (created node b) ∷ [], done tt)
    unfolding create_or_update push_block_device create_block_device update_existing
    run-create_or_update =
        rw (made, create_or_update)
          (ap
            (λ r.
              sends (device_create (created node b)) (run s (update_existing (created node b) r)))
            accepts)

    run-publish :
        (after : Hierarchy)
        → run s (publish node after (with_uuid uuid bd) items (err not_found))
          ≡ (device_create (created node b) ∷ [], done tt)
    unfolding publish publish_new create_if_no_holders
    run-publish after =
        let named_bd = with_uuid uuid bd in
        rw (whole, publish_new)
          (ap
              (λ (ps : List String).
                run s (elim ps [
                  | [] ↦ create_if_no_holders node named_bd items
                  | _ ∷ _ ↦ ret (done tt)
                ]))
              no_partitions
            ∙ ap
                (λ (hs : List String). run s (elim hs [
                  | [] ↦
                      create_or_update node gpt_scheme named_bd (existing_block_device items uuid)
                  | _ ∷ _ ↦ ret (done tt)
                ]))
                no_holders
            ∙ ap (λ e. run s (create_or_update node gpt_scheme named_bd e)) unlisted
            ∙ run-create_or_update)

    -- A whole disk that is new: it has an identity, no partitions and no holders, nothing uses it, and
    -- the API server has no resource under its identity and accepts a new one. Then addBlockDevice
    -- creates the resource with the identity as its name, writes nothing else and succeeds, and the
    -- device is in the cache under that identity.
    pub run-add_block_device : run s (add_block_device node cache bd items) ≡ (
      device_create (created node b) ∷ [],
      ((add_to_hierarchy (with_uuid uuid bd) cache).0, done tt),
    )
    unfolding add_block_device add_checked
    run-add_block_device =
        let after = (add_to_hierarchy (with_uuid uuid bd) cache).0 in
        rw (checks_pass, add_block_device)
          (rw (named, add_checked)
            (ap
                (λ r.
                  run s
                    (handle (publish node after (with_uuid uuid bd) items r) (λ o. ret (after, o))))
                absent
              ∙ run-handle s (λ o. (after, o))
                  (publish node after (with_uuid uuid bd) items (err not_found))
              ∙ rw (run-publish after) refl))
