-- ===== src/Store/Tests.antt =====
-- The store of the daemon at one device.
use node_disk_manager.Base.{inr, StringMap, String, ◌≡◌, none, some, [], ◌∷◌, In, refl, inl, lookup}
use node_disk_manager.Api.{BlockDevice, ClaimState, unclaimed, claimed, active}
use node_disk_manager.Cluster.Safe.{Any, Safe, start}
use node_disk_manager.Store.{
  push_block_device, deactivate_stale, mark_unknown, drop_disabled, check_falsy,
}
use node_disk_manager.Store.Allowed.{KeepsClaims, DeactivatesMissing}
use node_disk_manager.Store.Listed.{In-drop_disabled}
use node_disk_manager.Store.Sound.{push_block_device-Safe, known}
use node_disk_manager.Store.States.{deactivate_stale-Safe, mark_unknown-Safe}

abbrev disk : String → StringMap String → ClaimState → BlockDevice
disk name annotations state = record {
  type_meta = record { kind = "BlockDevice"; api_version = "openebs.io/v1alpha1" };
  meta = record {
    name = name;
    namespace = "openebs";
    uid = "u1";
    resource_version = 3;
    deletion_timestamp = none;
    labels = [];
    annotations = annotations;
    finalizers = [];
  };
  spec = record {
    aggregate_device = "";
    capacity = record { storage = 200; physical_sector_size = 4096; logical_sector_size = 512 };
    claim_ref = none;
    details = record {
      device_type = "disk";
      drive_type = "HDD";
      logical_block_size = 512;
      physical_block_size = 4096;
      hardware_sector_size = 512;
      model = "";
      compliance = "";
      serial = "";
      vendor = "";
      firmware_revision = "";
    };
    dev_links = [];
    file_system = record { fs_type = ""; mountpoint = "" };
    node_attributes = record { node_name = "node1" };
    parent_device = "";
    partitioned = "No";
    path = "/dev/sdc";
  };
  status = record { claim_state = state; state = active };
}

push_block_device-Safe_example :
    Safe KeepsClaims Any
      (record start { listed = known (some (disk "bd-1" [] claimed)) })
      (push_block_device "openebs" (some (disk "bd-1" [] claimed)) (disk "bd-1" [] unclaimed))
push_block_device-Safe_example =
    push_block_device-Safe "openebs" (some (disk "bd-1" [] claimed)) (disk "bd-1" [] unclaimed) refl

deactivate_stale-Safe_example :
    Safe
      (DeactivatesMissing ("bd-1" ∷ "sparse-1" ∷ []))
      Any
      start
      (deactivate_stale "node1" ("sparse-1" ∷ []) ("bd-1" ∷ []))
deactivate_stale-Safe_example = deactivate_stale-Safe "node1" ("sparse-1" ∷ []) ("bd-1" ∷ [])

mark_unknown-Safe_example : Safe KeepsClaims Any start (mark_unknown "node1")
mark_unknown-Safe_example = mark_unknown-Safe "node1"

abbrev disabled : String → BlockDevice
disabled name = disk name (("openebs.io/reconcile", "false") ∷ []) unclaimed

In-drop_disabled_example :
    In (disk "bd-1" [] unclaimed) (drop_disabled (disabled "a" ∷ disk "bd-1" [] unclaimed ∷ []))
unfolding lookup
In-drop_disabled_example =
    In-drop_disabled (disabled "a" ∷ disk "bd-1" [] unclaimed ∷ []) (disk "bd-1" [] unclaimed)
      (inr (inl refl)) refl

-- Of two disabled devices in a row the second one stays.
second_stays : drop_disabled (disabled "a" ∷ disabled "b" ∷ []) ≡ disabled "b" ∷ []
unfolding drop_disabled lookup check_falsy node_disk_manager.Features.Gates.upper_is
second_stays = refl
