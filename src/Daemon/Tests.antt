-- ===== src/Daemon/Tests.antt =====
-- A disk with a WWN, added, changed and removed, and a loop of one device.
use node_disk_manager.Base.{
  erase, In, lookup, contains, eq_iff, String, Bool, true, false, none, some, [], ◌∷◌, ◌≡◌, ◌≢◌,
  inl, refl,
}
use node_disk_manager.Api.{BlockDevice, unclaimed, active, inactive}
use node_disk_manager.Cluster.Safe.{device_write, device_create, Safe, start}
use node_disk_manager.Store.Allowed.{KeepsClaims}
use node_disk_manager.Features.Gates.{new_feature_gate}
use node_disk_manager.Daemon.{add_to_hierarchy, Node, LocalDevice, Hierarchy, no_engine}
use node_disk_manager.Daemon.Uuid.{generate_uuid, uuid_field, uuid_of}
use node_disk_manager.Daemon.Convert.{to_device, object_meta, device_spec}
use node_disk_manager.Daemon.Convert.Status.{to_device-new}
use node_disk_manager.Daemon.Add.{with_uuid}
use node_disk_manager.Daemon.Publish.{add_block_device}
use node_disk_manager.Daemon.Delete.{delete_block_device}
use node_disk_manager.Store.{with_state}
use node_disk_manager.Daemon.Events.{
  add_block_device_event, delete_block_device_event, change_block_device_event,
}
use node_disk_manager.Daemon.Allowed.{AddsDevice}
use node_disk_manager.Daemon.Added.{add_block_device-Safe, AnyResult}
use node_disk_manager.Daemon.Handled.{add_block_device_event-Safe, AddsDevices, AnyAdding}
use node_disk_manager.Daemon.Changed.{change_block_device_event-Safe}
use node_disk_manager.Daemon.Gone.{delete_block_device_event-Safe, AnyOf}
use node_disk_manager.Daemon.Roundtrip.{run-delete_block_device}
use node_disk_manager.Daemon.Progress.{run-add_block_device, created}
use node_disk_manager.Daemon.Moved.{generate_uuid-moved}
use node_disk_manager.Cluster.Run.{run, Replies}
use node_disk_manager.Store.{existing_block_device}
use node_disk_manager.Cluster.Program.{done, ok, not_found, err}

abbrev node : Node
node = record {
  hash = λ s. s;
  host_name = "node1";
  namespace = "openebs";
  node_attributes = ("hostname", "node1") ∷ [];
  gates = new_feature_gate;
  meta_configs = none;
  find_results = λ _ _. none;
  is_valid_label_value = λ _. true;
}

-- a disk of 64 MiB, with a WWN or without
abbrev disk : String → LocalDevice
disk wwn = record {
  uuid = "";
  sys_path = "/sys/block/sdb";
  dev_path = "/dev/sdb";
  node_attributes = ("hostname", "node1") ∷ [];
  labels = [];
  fs_info = record { file_system_uuid = ""; file_system = ""; mount_point = [] };
  storage = 67108864;
  dev_links = [];
  device_attributes = record {
    device_type = "disk";
    drive_type = "HDD";
    id_type = "disk";
    physical_block_size = 4096;
    logical_block_size = 512;
    hardware_sector_size = 512;
    wwn = wwn;
    vendor = "ATA";
    model = "M1";
    serial = "S1";
    firmware_revision = "";
    compliance = "";
  };
  dm_info = record { dm_uuid = ""; dev_mapper_path = "" };
  dev_use = record { in_use = false; used_by = no_engine };
  partition_info = record {
    partition_number = 0;
    partition_entry_uuid = "";
    partition_table_uuid = "";
    partition_table_type = "";
  };
  dependent_devices = record { parent = ""; partitions = []; holders = []; slaves = [] };
}

abbrev larger : LocalDevice → LocalDevice
larger bd = record bd { storage = 134217728 }

abbrev passes_all : LocalDevice → Bool
passes_all _ = true

abbrev cache : Hierarchy
cache = ("/dev/sdb", disk "w1") ∷ []

add_block_device-Safe_example :
    Safe (AddsDevice node (disk "")) AnyResult start (add_block_device node [] (disk "") [])
add_block_device-Safe_example =
    add_block_device-Safe node [] [] (disk "") start (λ item m. absurd m)

add_block_device_event-Safe_example :
    Safe
      (AddsDevices node larger passes_all (disk "" ∷ disk "w1" ∷ []))
      (AnyAdding node larger passes_all)
      start
      (add_block_device_event node larger passes_all [] (disk "" ∷ disk "w1" ∷ []))
add_block_device_event-Safe_example =
    add_block_device_event-Safe node larger passes_all [] (disk "" ∷ disk "w1" ∷ [])

delete_block_device_event-Safe_example :
    Safe KeepsClaims AnyOf start (delete_block_device_event node cache (disk "w1" ∷ []))
delete_block_device_event-Safe_example = delete_block_device_event-Safe node cache (disk "w1" ∷ [])

change_block_device_event-Safe_example :
    Safe KeepsClaims AnyOf start (change_block_device_event node larger passes_all true [] cache)
change_block_device_event-Safe_example =
    change_block_device_event-Safe node passes_all larger true [] cache

no_loop : (disk "w1").device_attributes.device_type ≢ "loop"
no_loop = λ e. let f : false ≡ true = (eq_iff "disk" "loop").1 e in absurd cc

generate_uuid-moved_example :
    generate_uuid
      (record node { host_name = "node2" })
      (record (disk "w1") { dev_path = "/dev/sdx"; sys_path = "/sys/block/sdx" })
    ≡ generate_uuid node (disk "w1")
generate_uuid-moved_example =
    generate_uuid-moved node (disk "w1") "node2" "/dev/sdx" "/sys/block/sdx" no_loop

-- the resource of the disk
abbrev resource : BlockDevice
resource = record {
  type_meta = record { kind = "BlockDevice"; api_version = "openebs.io/v1alpha1" };
  meta = object_meta (with_uuid "blockdevice-w1S1" (disk "w1"));
  spec = device_spec (with_uuid "blockdevice-w1S1" (disk "w1"));
  status = record { claim_state = unclaimed; state = active };
}

disk_has_uuid : generate_uuid node (disk "w1") ≡ some "blockdevice-w1S1"
unfolding generate_uuid uuid_field uuid_of contains
disk_has_uuid = refl

disk_has_resource : to_device node (with_uuid "blockdevice-w1S1" (disk "w1")) ≡ some resource
unfolding to_device
disk_has_resource = refl

to_device-new_example :
    (resource.status.claim_state ≡ unclaimed)
    × (resource.status.state ≡ active)
    × (resource.meta.name ≡ "blockdevice-w1S1")
    × (resource.spec.path ≡ "/dev/sdb")
    × (resource.spec.capacity.storage ≡ 67108864)
to_device-new_example =
    to_device-new node (with_uuid "blockdevice-w1S1" (disk "w1")) resource disk_has_resource

-- the resource of the disk as the server stores it, with a uid and a version
abbrev stored_resource : BlockDevice
stored_resource = record resource {
  meta = record resource.meta { uid = "u1"; resource_version = 12 };
}

abbrev serving_new : Replies
serving_new = record {
  claim = λ _. err not_found;
  claim_update = λ c. ok c;
  device = λ _. err not_found;
  devices = λ _. ok [];
  device_create = λ d. ok d;
  device_update = λ d. ok d;
  taints = λ _. ok [];
  job = λ _. err not_found;
  job_create = λ j. ok j;
  job_delete = λ _. err not_found;
  disk = λ _. none;
}

none_listed : existing_block_device [] "blockdevice-w1S1" ≡ none
unfolding existing_block_device
none_listed = refl

run-add_block_device_example : run serving_new (add_block_device node [] (disk "w1") []) ≡ (
  device_create (created node resource) ∷ [],
  ((add_to_hierarchy (with_uuid "blockdevice-w1S1" (disk "w1")) []).0, done tt),
)
run-add_block_device_example =
    run-add_block_device node [] (disk "w1") [] refl refl serving_new "blockdevice-w1S1" resource
      (created node resource) disk_has_uuid disk_has_resource refl refl none_listed refl refl

run-delete_block_device_example :
    (found : BlockDevice) × In found (stored_resource ∷ [])
    × (found.meta.name ≡ resource.meta.name)
    × (run serving_new (delete_block_device node cache (disk "w1") (stored_resource ∷ [])).1
        ≡ (device_write (with_state inactive found) ∷ [], done tt))
    × ((delete_block_device node cache (disk "w1") (stored_resource ∷ [])).0
        ≡ erase "/dev/sdb" cache)
unfolding lookup
run-delete_block_device_example =
    run-delete_block_device node cache (disk "w1") (disk "w1") (stored_resource ∷ [])
      "blockdevice-w1S1" resource stored_resource disk_has_uuid disk_has_resource (inl refl) refl
      serving_new refl
