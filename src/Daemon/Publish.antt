-- ===== src/Daemon/Publish.antt =====
-- addBlockDevice of cmd/ndm_daemonset/probe/addhandler.go.
use node_disk_manager.Base.{
  String, Bool, true, false, not, none, some, List, ◌∷◌, [], lookup, if◌then◌else◌,
}
use node_disk_manager.Api.{BlockDevice, is_unclaimed}
use node_disk_manager.Cluster.Program.{
  Program, Reply, ok, err, not_found, Outcome, done, failed, api, no_parent, need_rescan, ret,
  get_device, handle, ◌>>=◌, ◌>>◌,
}
use node_disk_manager.Features.Gates.{is_enabled, partition_table_uuid}
use node_disk_manager.Partition.{Disk, create_single_partition, create_partition_table}
use node_disk_manager.Store.{existing_block_device}
use node_disk_manager.Daemon.{Node, LocalDevice, Hierarchy, add_to_hierarchy}
use node_disk_manager.Daemon.Uuid.{generate_uuid}
use node_disk_manager.Daemon.Add.{
  gpt_scheme, is_partition, with_uuid, is_parent_in_use, deactivate, create_or_update,
  create_if_no_holders, handle_unmanaged_devices, upgrade_bd,
}

module _ (node : Node) where
  -- What is left to do after the resource of the parent was asked for.
  unfoldable pub publish_with_parent :
      LocalDevice → List BlockDevice → Reply BlockDevice → Program (Outcome Unit)
  publish_with_parent bd items (err not_found) = create_if_no_holders node bd items
  publish_with_parent bd items (err e) = ret (failed (api e))
  publish_with_parent bd items (ok parent) =
      if not (is_unclaimed parent.status.claim_state)
      then ret (done tt)
      else deactivate parent
          (create_or_update node gpt_scheme bd (existing_block_device items bd.uuid))

  -- a partition without a resource
  unfoldable pub publish_partition :
      Hierarchy → LocalDevice → List BlockDevice → Program (Outcome Unit)
  publish_partition cache bd items = elim (lookup bd.dependent_devices.parent cache) [
    | none ↦ ret (failed no_parent)
    | some parent ↦ elim (generate_uuid node parent) [
      | none ↦ create_if_no_holders node bd items
      | some uuid ↦ get_device uuid (publish_with_parent bd items)
    ]
  ]

  -- a device without a resource
  unfoldable pub publish_new : Hierarchy → LocalDevice → List BlockDevice → Program (Outcome Unit)
  publish_new cache bd items =
      if is_partition bd
      then publish_partition cache bd items
      else elim bd.dependent_devices.partitions [
        | [] ↦ create_if_no_holders node bd items
        | _ ∷ _ ↦ ret (done tt)
      ]

  -- What is left to do after the resource of the device was asked for.
  unfoldable pub publish :
      Hierarchy → LocalDevice → List BlockDevice → Reply BlockDevice → Program (Outcome Unit)
  publish cache bd items (err not_found) = publish_new cache bd items
  publish cache bd items (err e) = ret (failed (api e))
  publish cache bd items (ok bd_api) = create_or_update node gpt_scheme bd (
      if not (is_unclaimed bd_api.status.claim_state)
      then some bd_api
      else existing_block_device items bd.uuid)

  -- A device without an identity, partitions and holders gets a partition table.
  unfoldable pub partition_device : LocalDevice → Program (Outcome Unit)
  partition_device bd =
      let d : Disk = record {
        dev_path = bd.dev_path;
        disk_size = bd.storage;
        logical_block_size = bd.device_attributes.logical_block_size;
      } in
      if is_enabled partition_table_uuid node.gates
      then create_partition_table d >> ret (failed need_rescan)
      else create_single_partition d

  -- the device without an identity, with its partitions and holders
  unfoldable pub identify : LocalDevice → List String → List String → Program (Outcome Unit)
  identify bd (_ ∷ _) holders = ret (done tt)
  identify bd [] (_ ∷ _) = ret (done tt)
  identify bd [] [] = partition_device bd

  -- the checks with which addBlockDevice begins; false ends the processing
  unfoldable pub after_parent :
      LocalDevice → List BlockDevice → Outcome Bool → Program (Outcome Bool)
  after_parent bd items (failed e) = ret (failed e)
  after_parent bd items (done true) = ret (done false)
  after_parent bd items (done false) = upgrade_bd node bd items

  unfoldable pub after_unmanaged :
      Hierarchy → LocalDevice → List BlockDevice → Bool → Program (Outcome Bool)
  after_unmanaged cache bd items false = ret (done false)
  after_unmanaged cache bd items true = after_parent bd items (is_parent_in_use cache bd)

  unfoldable pub check_in_use : Hierarchy → LocalDevice → List BlockDevice → Program (Outcome Bool)
  check_in_use cache bd items =
      handle_unmanaged_devices node cache bd >>= after_unmanaged cache bd items

  -- the rest of addBlockDevice
  unfoldable pub add_checked :
      Hierarchy → LocalDevice → List BlockDevice → Outcome Bool → Program (Hierarchy × Outcome Unit)
  add_checked cache bd items (failed e) = ret (cache, failed e)
  add_checked cache bd items (done false) = ret (cache, done tt)
  add_checked cache bd items (done true) = elim (generate_uuid node bd) [
    | none ↦
        handle (identify bd bd.dependent_devices.partitions bd.dependent_devices.holders)
          (λ o. ret (cache, o))
    | some uuid ↦
        let named = with_uuid uuid bd in
        let after = (add_to_hierarchy named cache).0 in
        get_device uuid (λ r. handle (publish after named items r) (λ o. ret (after, o)))
  ]

  -- addBlockDevice
  unfoldable pub add_block_device :
      Hierarchy → LocalDevice → List BlockDevice → Program (Hierarchy × Outcome Unit)
  add_block_device cache bd items =
      handle (check_in_use cache bd items) (add_checked cache bd items)
