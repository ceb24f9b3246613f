-- ===== src/Daemon/Probes/Tests.antt =====
-- A disk with a local volume.
use node_disk_manager.Base.{has_prefix, contains_text, true, false, none, [], ◌∷◌, ◌≡◌, refl}
use node_disk_manager.Cluster.Safe.{start}
use node_disk_manager.Features.Gates.{new_feature_gate}
use node_disk_manager.Daemon.{Node, LocalDevice, no_engine}
use node_disk_manager.Daemon.Uuid.{generate_uuid}
use node_disk_manager.Daemon.Allowed.{MayPartition}
use node_disk_manager.Daemon.Probes.{DiskContent, fill_used_by, has_local_volume}
use node_disk_manager.Daemon.Probes.Marks.{IsMarked, fill_used_by-IsMarked, used_device_kept}

abbrev content : DiskContent
content = record {
  on_disk_file_system = λ _. "";
  on_disk_label = λ _. "";
  in_use_by_kernel = λ _. false;
  has_spdk_signature = λ _. false;
  is_match_regex = λ _ _. false;
}

abbrev node : Node
node = record {
  hash = λ s. s;
  host_name = "node1";
  namespace = "openebs";
  node_attributes = [];
  gates = new_feature_gate;
  meta_configs = none;
  find_results = λ _ _. none;
  is_valid_label_value = λ _. true;
}

abbrev disk : LocalDevice
disk = record {
  uuid = "";
  sys_path = "/sys/block/sdb";
  dev_path = "/dev/sdb";
  node_attributes = [];
  labels = [];
  fs_info = record {
    file_system_uuid = "";
    file_system = "";
    mount_point = "/var/lib/kubelet/plugins/kubernetes.io/local-volume/mounts/pv1" ∷ [];
  };
  storage = 67108864;
  dev_links = [];
  device_attributes = record {
    device_type = "disk";
    drive_type = "HDD";
    id_type = "disk";
    physical_block_size = 4096;
    logical_block_size = 512;
    hardware_sector_size = 512;
    wwn = "w1";
    vendor = "ATA";
    model = "M1";
    serial = "S1";
    firmware_revision = "";
    compliance = "";
  };
  dm_info = record { dm_uuid = ""; dev_mapper_path = "" };
  dev_use = record { in_use = false; used_by = no_engine };
  partition_info = record {
    partition_number = 0;
    partition_entry_uuid = "";
    partition_table_uuid = "";
    partition_table_type = "";
  };
  dependent_devices = record { parent = ""; partitions = []; holders = []; slaves = [] };
}

fill_used_by-IsMarked_example :
    IsMarked disk (fill_used_by content disk)
    × (generate_uuid node (fill_used_by content disk) ≡ generate_uuid node disk)
fill_used_by-IsMarked_example = fill_used_by-IsMarked content node disk

disk_is_used : (fill_used_by content disk).dev_use.in_use ≡ true
unfolding fill_used_by has_local_volume contains_text has_prefix
disk_is_used = refl

used_device_kept_example : ¬ MayPartition node (fill_used_by content disk) start "/dev/sdb"
used_device_kept_example = used_device_kept content node disk start "/dev/sdb" refl disk_is_used
