-- ===== src/Store.antt =====
-- cmd/ndm_daemonset/controller/blockdevicestore.go: what the daemon does with the resources of its
-- devices, and CheckFalsy of pkg/util/util.go. Namespace, host name and the identifiers of the
-- active sparse files (GetActiveSparseBlockDevicesUUID) are arguments. The conversion of a device
-- of the daemon to a resource (ToDevice) is not modelled: the new resource is an argument.
pub mod Allowed
pub mod Listed
pub mod Sound
pub mod States
mod Tests
use node_disk_manager.Base.{
  String, Bool, true, false, not, ◌||◌, Option, none, some, List, [], ◌∷◌, ◌++◌, ◌==◌,
  if◌then◌else◌, lookup, merge, contains, find_first,
}
use node_disk_manager.Api.{
  BlockDevice, ObjectMeta, LabelSelector, DeviceState, inactive, unknown, is_unclaimed,
}
use node_disk_manager.Cluster.Program.{
  Program, Reply, ok, err, ApiError, already_exists, conflict, Outcome, done, failed, Failure, api,
  ret, get_device, create_device, update_device, list_devices, check, check_error, ◌>>=◌, handle,
}
use node_disk_manager.Features.Gates.{upper_is}
use node_disk_manager.Claim.{host_name_label}

unfoldable pub check_falsy : String → Bool
check_falsy falsy =
    falsy == ""
    || upper_is falsy "0"
    || upper_is falsy "NO"
    || upper_is falsy "FALSE"
    || upper_is falsy "BLANK"

-- mergeMetadata; a key that is in both maps takes the new value
unfoldable pub merge_metadata : ObjectMeta → ObjectMeta → ObjectMeta
merge_metadata new_meta old_meta = record old_meta {
  labels = merge new_meta.labels old_meta.labels;
  annotations = merge new_meta.annotations old_meta.annotations;
}

-- mergeBlockDeviceData
unfoldable pub merge_block_device_data : BlockDevice → BlockDevice → BlockDevice
merge_block_device_data new_bd old_bd =
    if not (is_unclaimed old_bd.status.claim_state)
    then record old_bd {
      type_meta = new_bd.type_meta;
      meta = merge_metadata new_bd.meta old_bd.meta;
      spec = record old_bd.spec {
        node_attributes = new_bd.spec.node_attributes;
        capacity = record old_bd.spec.capacity { storage = new_bd.spec.capacity.storage };
        path = new_bd.spec.path;
        dev_links = new_bd.spec.dev_links;
      };
      status = record old_bd.status { state = new_bd.status.state };
    }
    else record old_bd {
      type_meta = new_bd.type_meta;
      meta = merge_metadata new_bd.meta old_bd.meta;
      spec = new_bd.spec;
      status = new_bd.status;
    }

unfoldable pub update_merged : BlockDevice → BlockDevice → Program (Outcome Unit)
update_merged new_bd old_bd = update_device (merge_block_device_data new_bd old_bd) check_error

-- UpdateBlockDevice
unfoldable pub update_block_device : BlockDevice → Option BlockDevice → Program (Outcome Unit)
update_block_device new_bd none = get_device new_bd.meta.name check >>= update_merged new_bd
update_block_device new_bd (some old_bd) = update_merged new_bd old_bd

-- the second attempt of CreateBlockDevice, whose error is only logged
unfoldable pub update_again : BlockDevice → Outcome Unit → Program (Outcome Unit)
update_again bd (failed (api conflict)) = handle (update_block_device bd none) (λ _. ret (done tt))
update_again bd o = ret o

unfoldable pub update_existing : BlockDevice → Reply BlockDevice → Program (Outcome Unit)
update_existing bd (ok _) = ret (done tt)
update_existing bd (err already_exists) = handle (update_block_device bd none) (update_again bd)
update_existing bd (err e) = ret (failed (api e))

-- Deactivating a device and marking it as unknown, whose errors are only logged.
abbrev pub with_state : DeviceState → BlockDevice → BlockDevice
with_state state bd = record bd { status = record bd.status { state = state } }

unfoldable pub set_states : DeviceState → List BlockDevice → Program (Outcome Unit)
set_states state [] = ret (done tt)
set_states state (item ∷ items) =
    update_device (with_state state item) (λ _. set_states state items)

unfoldable pub deactivate_missing : List String → List BlockDevice → Program (Outcome Unit)
deactivate_missing present [] = ret (done tt)
deactivate_missing present (item ∷ items) =
    let rest = deactivate_missing present items in
    if not (contains present item.meta.name)
    then update_device (with_state inactive item) (λ _. rest)
    else rest

-- The loop at the end of ListBlockDeviceResource. When an element is removed, the one that moves
-- into its place is not looked at.
abbrev pub is_disabled : BlockDevice → Bool
is_disabled bd = elim (lookup "openebs.io/reconcile" bd.meta.annotations) [
  | none ↦ false
  | some val ↦ check_falsy val
]

unfoldable pub drop_disabled : List BlockDevice → List BlockDevice
drop_disabled [] = []
drop_disabled (bd ∷ []) = if is_disabled bd then [] else bd ∷ []
drop_disabled (bd ∷ next ∷ rest) =
    let skipped = drop_disabled rest in
    let looked_at = drop_disabled (next ∷ rest) in
    if is_disabled bd then next ∷ skipped else bd ∷ looked_at

unfoldable pub finish_list : Reply (List BlockDevice) → Program (Outcome (List BlockDevice))
finish_list (err e) = ret (failed (api e))
finish_list (ok items) = ret (done (drop_disabled items))

-- GetExistingBlockDeviceResource
unfoldable pub existing_block_device : List BlockDevice → String → Option BlockDevice
existing_block_device items uuid = find_first (λ item. uuid == item.meta.name) items

module _ (namespace : String) where
  -- CreateBlockDevice
  unfoldable pub create_block_device : BlockDevice → Program (Outcome Unit)
  create_block_device bd =
      let placed = record bd { meta = record bd.meta { namespace = namespace } } in
      create_device placed (update_existing placed)

  -- PushBlockDeviceResource, after ToDevice
  unfoldable pub push_block_device : Option BlockDevice → BlockDevice → Program (Outcome Unit)
  push_block_device none bd = create_block_device bd
  push_block_device (some old_bd) bd = update_block_device bd (some old_bd)

module _ (host_name : String) where
  -- ListBlockDeviceResource; the requirement on the label ndm.io/managed never gets into `sel`
  unfoldable pub list_block_devices : Bool → Program (Outcome (List BlockDevice))
  list_block_devices list_all =
      list_devices
        (record {
          match_labels = if list_all then [] else (host_name_label, host_name) ∷ [];
          match_expressions = [];
        })
        finish_list

  -- DeactivateStaleBlockDeviceResource
  unfoldable pub deactivate_stale : List String → List String → Program (Outcome Unit)
  deactivate_stale sparse_uuids devices =
      list_block_devices false >>= deactivate_missing (devices ++ sparse_uuids)

  -- MarkBlockDeviceStatusToUnknown
  unfoldable pub mark_unknown : Program (Outcome Unit)
  mark_unknown = list_block_devices false >>= set_states unknown
