-- ===== src/Select/Tests.antt =====
-- The selection at a small list of devices.
use node_disk_manager.Base.{
  ℕ, String, ◌≡◌, Bool, true, false, Option, none, some, List, [], ◌∷◌, refl, inl, inr, lookup,
  StringMap, In, arith, eq_iff, ◌==◌, ◌≢◌,
}
use node_disk_manager.Base.Int.{ℤ, pos}
use node_disk_manager.Api.{
  BlockDevice, DeviceClaimSpec, unclaimed, claimed, active, unset, ClaimState,
}
use node_disk_manager.Select.Eligible.{BuildsTagRequirement}
use node_disk_manager.Select.Filters.{
  first_only, tag_selector_required, get_requested_capacity, filter_resource_storage,
  filter_node_name, filter_volume_mode, filter_device_type, filter_out_sparse_block_device,
  filter_block_device_tag, filter_out_legacy_annotation, block_device_tag_label, apply_filters,
  filter_func, filter_active, filter_unclaimed,
}
use node_disk_manager.Select.Choose.{
  select_candidate, filter, new_config, device, get_candidate_devices, get_selected_device,
}
use node_disk_manager.Select.Sound.{Satisfies, filter_sound, filter_complete}

abbrev bd : String → ClaimState → ℕ → BlockDevice
bd name state size = record {
  type_meta = record { kind = "BlockDevice"; api_version = "openebs.io/v1alpha1" };
  meta = record {
    name = name;
    namespace = "openebs";
    uid = "";
    resource_version = 1;
    deletion_timestamp = none;
    labels = [];
    annotations = [];
    finalizers = [];
  };
  spec = record {
    aggregate_device = "";
    capacity = record { storage = size; physical_sector_size = 4096; logical_sector_size = 512 };
    claim_ref = none;
    details = record {
      device_type = "disk";
      drive_type = "SSD";
      logical_block_size = 512;
      physical_block_size = 4096;
      hardware_sector_size = 512;
      model = "";
      compliance = "";
      serial = "";
      vendor = "";
      firmware_revision = "";
    };
    dev_links = [];
    file_system = record { fs_type = ""; mountpoint = "" };
    node_attributes = record { node_name = "node1" };
    parent_device = "";
    partitioned = "No";
    path = "/dev/sdb";
  };
  status = record { claim_state = state; state = active };
}

abbrev claim_spec : DeviceClaimSpec
claim_spec = record {
  selector = none;
  requests = ("storage", "100") ∷ [];
  device_type = "disk";
  host_name = "";
  details = record { block_volume_mode = unset; device_format = ""; allow_partition = false };
  block_device_name = "";
  block_device_node_attributes = record { node_name = "node1"; host_name = "" };
}

-- a quantity of 100 bytes, whatever its text
abbrev hundred : String → ℤ × Bool
hundred _ = (pos 100, true)

abbrev no_key : String → Option (StringMap String → Bool)
no_key k = some (λ m. elim (lookup k m) [ none ↦ true | some _ ↦ false ])

no_key_builds : BuildsTagRequirement no_key
no_key_builds = (
  (λ m. elim (lookup block_device_tag_label m) [ none ↦ true | some _ ↦ false ]),
  refl,
  λ m. refl,
)

abbrev devices : List BlockDevice
devices = bd "a" claimed 500 ∷ bd "b" unclaimed 50 ∷ bd "c" unclaimed 200 ∷ []

takes_c : filter hundred no_key (new_config claim_spec) devices ≡ device (bd "c" unclaimed 200)
unfolding filter select_candidate get_candidate_devices get_selected_device apply_filters
    filter_func filter_active filter_unclaimed filter_out_legacy_annotation filter_block_device_tag
    filter_out_sparse_block_device filter_device_type filter_volume_mode filter_node_name
    filter_resource_storage get_requested_capacity tag_selector_required first_only lookup
takes_c = refl

filter_sound_example :
    In (bd "c" unclaimed 200) devices × Satisfies hundred claim_spec (bd "c" unclaimed 200)
filter_sound_example =
    filter_sound hundred no_key no_key_builds claim_spec devices (bd "c" unclaimed 200) takes_c

differ : (s t : String) → (s == t) ≡ false → s ≢ t
differ s t h e = cc ((eq_iff s t).1 e)

c-Satisfies : Satisfies hundred claim_spec (bd "c" unclaimed 200)
unfolding lookup
c-Satisfies = (
  record { is_active = refl; is_unclaimed = refl; not_legacy = λ e. cc },
  inl refl,
  inr (
    refl,
    record {
      not_sparse = differ "disk" "sparse" refl;
      has_type = inr refl;
      fits_mode = tt;
      on_node = inr refl;
    },
    omega arith,
  ),
)

filter_complete_example :
    (found : BlockDevice) × (filter hundred no_key (new_config claim_spec) devices ≡ device found)
filter_complete_example =
    filter_complete hundred no_key no_key_builds claim_spec devices (bd "c" unclaimed 200)
      (inr (inr (inl refl))) c-Satisfies
