-- ===== src/Lifecycle/Tests.antt =====
-- A held device and a released one, when the daemon shuts down.
mod Handover
use node_disk_manager.Base.{
  ◌⊎◌, false, String, ◌≡◌, Option, none, some, [], ◌∷◌, refl, inl, inr, lookup, StringMap, Bool,
  true,
}
use node_disk_manager.Base.Int.{ℤ, pos}
use node_disk_manager.Api.{
  BlockDevice, BlockDeviceClaim, ObjectReference, LabelSelector, ClaimState, ClaimPhase,
  DeviceState, claimed, released, active, unknown, unset,
}
use node_disk_manager.Cluster.Program.{ok}
use node_disk_manager.Cluster.Safe.{History, start}
use node_disk_manager.Select.Eligible.{BuildsTagRequirement}
use node_disk_manager.Select.Filters.{block_device_tag_label}
use node_disk_manager.Claim.Allowed.{HeldBy, RefersTo}
use node_disk_manager.Claim.{block_device_claim_finalizer}
use node_disk_manager.Store.{
  mark_unknown, list_block_devices, finish_list, drop_disabled, set_states,
}
use node_disk_manager.Lifecycle.{stored, Setting, Steps, stop, step, by_shutdown}
use node_disk_manager.Lifecycle.Held.{
  WasFreed, WasRecycled, held_until_freed, released_until_recycled,
}

abbrev hundred : String → ℤ × Bool
hundred _ = (pos 100, true)

abbrev pub reference : ObjectReference
reference = record {
  kind = "BlockDeviceClaim";
  namespace = "openebs";
  name = "claim1";
  uid = "c1";
  api_version = "openebs.io/v1alpha1";
  resource_version = 1;
}

abbrev pub disk : Option ObjectReference → ClaimState → DeviceState → BlockDevice
disk ref claim_state state = record {
  type_meta = record { kind = "BlockDevice"; api_version = "openebs.io/v1alpha1" };
  meta = record {
    name = "bd-1";
    namespace = "openebs";
    uid = "u1";
    resource_version = 3;
    deletion_timestamp = none;
    labels = [];
    annotations = [];
    finalizers = [];
  };
  spec = record {
    aggregate_device = "";
    capacity = record { storage = 200; physical_sector_size = 4096; logical_sector_size = 512 };
    claim_ref = ref;
    details = record {
      device_type = "disk";
      drive_type = "HDD";
      logical_block_size = 512;
      physical_block_size = 4096;
      hardware_sector_size = 512;
      model = "";
      compliance = "";
      serial = "";
      vendor = "";
      firmware_revision = "";
    };
    dev_links = [];
    file_system = record { fs_type = ""; mountpoint = "" };
    node_attributes = record { node_name = "node1" };
    parent_device = "";
    partitioned = "No";
    path = "/dev/sdc";
  };
  status = record { claim_state = claim_state; state = state };
}

abbrev pub leaving : BlockDeviceClaim
leaving = record {
  type_meta = record { kind = "BlockDeviceClaim"; api_version = "openebs.io/v1alpha1" };
  meta = record {
    name = "claim1";
    namespace = "openebs";
    uid = "c1";
    resource_version = 2;
    deletion_timestamp = some 9;
    labels = [];
    annotations = [];
    finalizers = block_device_claim_finalizer ∷ [];
  };
  spec = record {
    selector = none;
    requests = [];
    device_type = "";
    host_name = "";
    details = record { block_volume_mode = unset; device_format = ""; allow_partition = false };
    block_device_name = "bd-1";
    block_device_node_attributes = record { node_name = ""; host_name = "" };
  };
  phase = ClaimPhase.done;
}

abbrev pub reference_to : BlockDeviceClaim → ObjectReference
reference_to bdc = record {
  kind = bdc.type_meta.kind;
  namespace = bdc.meta.namespace;
  name = bdc.meta.name;
  uid = bdc.meta.uid;
  api_version = bdc.type_meta.api_version;
  resource_version = bdc.meta.resource_version;
}

abbrev has_reference : BlockDeviceClaim → Option ObjectReference
has_reference bdc = some (reference_to bdc)

pub refers_to :
    (bdc : BlockDeviceClaim) (ref : ObjectReference)
    → has_reference bdc ≡ some ref
    → RefersTo bdc ref
refers_to bdc ref e = record { same_name = cc; same_uid = cc; same_kind = cc }

abbrev no_key : String → Option (StringMap String → Bool)
no_key k = some (λ m. elim (lookup k m) [ none ↦ true | some _ ↦ false ])

pub no_key_builds : BuildsTagRequirement no_key
no_key_builds = (
  (λ m. elim (lookup block_device_tag_label m) [ none ↦ true | some _ ↦ false ]),
  refl,
  λ m. refl,
)

abbrev any_selector : LabelSelector → Bool
any_selector _ = true

abbrev pub setting : Setting
setting = record {
  as_int64 = hundred;
  does_not_exist = no_key;
  reference = has_reference;
  valid_selector = any_selector;
  env = λ _. none;
  pull_secrets = [];
  namespace = "openebs";
}

pub held : HeldBy leaving (disk (some reference) claimed active)
held = (refl, reference, refl, record { same_name = refl; same_uid = refl; same_kind = refl })

abbrev pub listed : BlockDevice → History
listed bd = record start { listed = bd ∷ [] }

shutdown :
    (ref : Option ObjectReference) (state : ClaimState)
    → Steps setting (disk ref state active) (stored 4 (disk ref state unknown))
unfolding mark_unknown list_block_devices finish_list drop_disabled set_states lookup
shutdown ref state =
    step (disk ref state active) (disk ref state unknown) (stored 4 (disk ref state unknown)) 4
      (by_shutdown "node1" (listed (disk ref state active))
        (ok (disk ref state active ∷ []), inl (refl, refl))
        (λ read m same. elim m [ inl e ↦ e | inr n ↦ absurd n ]))
      (stop (stored 4 (disk ref state unknown)))

held_until_freed_example :
    HeldBy leaving (stored 4 (disk (some reference) claimed unknown))
    ⊎ WasFreed setting leaving
        (disk (some reference) claimed active)
        (stored 4 (disk (some reference) claimed unknown))
        (shutdown (some reference) claimed)
held_until_freed_example =
    held_until_freed setting no_key_builds refers_to leaving (disk (some reference) claimed active)
      (stored 4 (disk (some reference) claimed unknown)) (shutdown (some reference) claimed) held

released_until_recycled_example :
    ((stored 4 (disk none released unknown)).status.claim_state ≡ released)
    ⊎ WasRecycled setting
        (disk none released active)
        (stored 4 (disk none released unknown))
        (shutdown none released)
released_until_recycled_example =
    released_until_recycled setting no_key_builds refers_to (disk none released active)
      (stored 4 (disk none released unknown)) (shutdown none released) refl
