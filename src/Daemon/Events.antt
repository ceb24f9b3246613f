-- ===== src/Daemon/Events.antt =====
-- cmd/ndm_daemonset/probe/eventhandler.go: the events of the kernel, with all devices of a message.
-- `fill` is FillBlockDeviceDetails, which asks the probes, and `passes` is Controller.ApplyFilter. A
-- rescan is started in the background: it is part of the result only.
use node_disk_manager.Base.{
  ◌&&◌, String, Bool, true, false, not, ◌==◌, ◌||◌, none, some, List, [], ◌∷◌, ◌++◌, lookup,
  contains, if◌then◌else◌,
}
use node_disk_manager.Api.{BlockDevice}
use node_disk_manager.Cluster.Program.{
  Program, Outcome, done, failed, need_rescan, bad_label, ret, handle,
}
use node_disk_manager.Features.Gates.{is_enabled, gpt_based_uuid}
use node_disk_manager.Store.{existing_block_device, push_block_device, list_block_devices}
use node_disk_manager.Daemon.{Node, LocalDevice, Hierarchy, add_to_hierarchy}
use node_disk_manager.Daemon.Convert.{to_device}
use node_disk_manager.Daemon.Add.{is_partition, deactivate}
use node_disk_manager.Daemon.Publish.{add_block_device}
use node_disk_manager.Daemon.Delete.{delete_block_device}
use node_disk_manager.Daemon.Change.{change_block_device}

-- isParentOrSlaveDevice
unfoldable pub is_parent_or_slave : LocalDevice → List String → Bool
is_parent_or_slave bd [] = false
is_parent_or_slave bd (errored ∷ rest) =
    let later = is_parent_or_slave bd rest in
    if bd.dependent_devices.parent == errored || contains bd.dependent_devices.slaves errored
    then true
    else later

-- What the loop of addBlockDeviceEvent carries along.
pub record Adding : Type 0 where
  pub cache : Hierarchy
  pub needs_rescan : Bool
  pub errored : List String

abbrev pub errored_at : String → Adding → Adding
errored_at path st = record st { needs_rescan = true; errored = st.errored ++ path ∷ [] }

-- the error of addBlockDevice
unfoldable pub note_result : LocalDevice → Adding → Hierarchy × Outcome Unit → Adding
note_result bd st (cache, done _) = record st { cache = cache }
note_result bd st (cache, failed need_rescan) = record st { cache = cache; needs_rescan = true }
note_result bd st (cache, failed e) = errored_at bd.dev_path (record st { cache = cache })

-- the error of PushBlockDeviceResource
abbrev pub note_push : Adding → Outcome Unit → Adding
note_push st (done _) = st
note_push st (failed e) = record st { needs_rescan = true }

-- What the loop of deleteBlockDeviceEvent carries along.
abbrev pub Deleting : Type 0
Deleting = Hierarchy × Bool

module _ (node : Node) where
  -- PushBlockDeviceResource, with the attributes of the node
  unfoldable pub push_local : LocalDevice → List BlockDevice → Program (Outcome Unit)
  push_local bd items =
      elim (to_device node (record bd { node_attributes = node.node_attributes })) [
        | none ↦ ret (failed bad_label)
        | some bd_api ↦
            push_block_device node.namespace (existing_block_device items bd.uuid) bd_api
      ]

  module _ (fill : LocalDevice → LocalDevice) (passes : LocalDevice → Bool) where
    -- a device that passes the filters
    unfoldable pub add_passed : List BlockDevice → Adding → LocalDevice → Program Adding
    add_passed items st bd =
        if is_enabled gpt_based_uuid node.gates
        then (if is_parent_or_slave bd st.errored
            then ret st
            else handle (add_block_device node st.cache bd items) (λ o. ret (note_result bd st o)))
        else if is_partition bd
        then ret st
        else handle (push_local bd items) (λ o. ret (note_push st o))

    -- the body of the loop
    unfoldable pub add_device : List BlockDevice → Adding → LocalDevice → Program Adding
    unfolding add_passed
    add_device items st device =
        let bd = fill device in
        let cached = record st { cache = (add_to_hierarchy bd st.cache).0 } in
        if not (passes bd) then ret cached else add_passed items cached bd

    unfoldable pub add_devices : List BlockDevice → List LocalDevice → Adding → Program Adding
    add_devices items [] st = ret st
    add_devices items (device ∷ devices) st =
        handle (add_device items st device) (add_devices items devices)

    unfoldable pub add_listed :
        Hierarchy → List LocalDevice → Outcome (List BlockDevice) → Program Adding
    add_listed cache devices (failed e) =
        ret (record { cache = cache; needs_rescan = true; errored = [] })
    add_listed cache devices (done items) =
        add_devices items devices (record { cache = cache; needs_rescan = false; errored = [] })

    -- addBlockDeviceEvent
    unfoldable pub add_block_device_event : Hierarchy → List LocalDevice → Program Adding
    add_block_device_event cache devices =
        handle (list_block_devices node.host_name true) (add_listed cache devices)

    -- the loops of changeBlockDeviceEvent; an error is only logged
    unfoldable pub change_devices : List LocalDevice → Hierarchy → Program Hierarchy
    change_devices [] cache = ret cache
    change_devices (bd ∷ bds) cache =
        let changed = change_block_device node passes cache bd (fill bd) in
        handle changed.1 (λ _. change_devices bds changed.0)

    unfoldable pub change_named : List LocalDevice → Hierarchy → Program Hierarchy
    change_named [] cache = ret cache
    change_named (bd ∷ bds) cache = elim (lookup bd.dev_path cache) [
      | none ↦ change_named bds cache
      | some cached ↦
          let changed = change_block_device node passes cache cached (fill cached) in
          handle changed.1 (λ _. change_named bds changed.0)
    ]

    abbrev pub values_of : Hierarchy → List LocalDevice
    values_of [] = []
    values_of ((_, bd) ∷ cache) = bd ∷ values_of cache

    -- changeBlockDeviceEvent, with AllBlockDevices first
    unfoldable pub change_block_device_event :
        Bool → List LocalDevice → Hierarchy → Program Hierarchy
    change_block_device_event true devices cache = change_devices (values_of cache) cache
    change_block_device_event false devices cache = change_named devices cache

  -- the body of the loop; the second part is `isDeactivated`
  unfoldable pub delete_device : List BlockDevice → Deleting → LocalDevice → Program Deleting
  delete_device items (cache, deactivated) bd =
      if is_enabled gpt_based_uuid node.gates
      then (let removed = delete_block_device node cache bd items in
          handle removed.1 (λ _. ret (removed.0, deactivated)))
      else if is_partition bd
      then ret (cache, deactivated)
      else elim (existing_block_device items bd.uuid) [
        | none ↦ ret (cache, false)
        | some item ↦ handle (deactivate item (ret (done tt))) (λ _. ret (cache, deactivated))
      ]

  unfoldable pub delete_devices : List BlockDevice → List LocalDevice → Deleting → Program Deleting
  delete_devices items [] st = ret st
  delete_devices items (bd ∷ bds) st = handle (delete_device items st bd) (delete_devices items bds)

  -- The list is empty where it could not be read.
  unfoldable pub delete_listed :
      Hierarchy → List LocalDevice → Outcome (List BlockDevice) → Program Deleting
  delete_listed cache devices (failed e) = delete_devices [] devices (cache, true)
  delete_listed cache devices (done items) = delete_devices items devices (cache, true)

  abbrev pub delete_result : Deleting → Hierarchy × Bool
  delete_result st = (st.0, not st.1 && not (is_enabled gpt_based_uuid node.gates))

  -- deleteBlockDeviceEvent: the cache, and whether a rescan is started
  unfoldable pub delete_block_device_event :
      Hierarchy → List LocalDevice → Program (Hierarchy × Bool)
  delete_block_device_event cache devices =
      handle (handle (list_block_devices node.host_name false) (delete_listed cache devices))
        (λ st. ret (delete_result st))
