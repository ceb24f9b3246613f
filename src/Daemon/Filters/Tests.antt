-- ===== src/Daemon/Filters/Tests.antt =====
-- A disk that passes the filters of the default configuration.
use node_disk_manager.Base.{String, true, false, none, [], ◌∷◌, ◌≡◌, ◌↔◌, In, ◌==◌}
use node_disk_manager.Daemon.{Node, LocalDevice, no_engine}
use node_disk_manager.Daemon.Filters.{Filter, Library, apply_filter, device_validity_filter}
use node_disk_manager.Daemon.Filters.Validity.{apply_filter_iff, LetsPass}
use node_disk_manager.Features.Gates.{new_feature_gate}

abbrev library : Library
library = record {
  to_lower = λ s. s;
  equal_fold = λ s t. s == t;
  is_match_regex = λ _ _. false;
  disk_path_of = λ _. none;
}

abbrev node : Node
node = record {
  hash = λ s. s;
  host_name = "node1";
  namespace = "openebs";
  node_attributes = [];
  gates = new_feature_gate;
  meta_configs = none;
  find_results = λ _ _. none;
  is_valid_label_value = λ _. true;
}

abbrev disk : LocalDevice
disk = record {
  uuid = "";
  sys_path = "/sys/block/sdb";
  dev_path = "/dev/sdb";
  node_attributes = [];
  labels = [];
  fs_info = record { file_system_uuid = ""; file_system = ""; mount_point = [] };
  storage = 67108864;
  dev_links = [];
  device_attributes = record {
    device_type = "disk";
    drive_type = "HDD";
    id_type = "disk";
    physical_block_size = 4096;
    logical_block_size = 512;
    hardware_sector_size = 512;
    wwn = "w1";
    vendor = "ATA";
    model = "M1";
    serial = "S1";
    firmware_revision = "";
    compliance = "";
  };
  dm_info = record { dm_uuid = ""; dev_mapper_path = "" };
  dev_use = record { in_use = false; used_by = no_engine };
  partition_info = record {
    partition_number = 0;
    partition_entry_uuid = "";
    partition_table_uuid = "";
    partition_table_type = "";
  };
  dependent_devices = record { parent = ""; partitions = []; holders = []; slaves = [] };
}

abbrev wwn_serial : String
wwn_serial = "w1S1"

apply_filter_iff_example : (apply_filter (device_validity_filter ∷ []) disk ≡ true) ↔ (
    (filter : Filter)
    → In filter (device_validity_filter ∷ [])
    → filter.state ≡ true
    → LetsPass disk filter)
apply_filter_iff_example = apply_filter_iff (device_validity_filter ∷ []) disk
