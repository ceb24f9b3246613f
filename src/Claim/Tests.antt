-- ===== src/Claim/Tests.antt =====
-- The reconciler at a small cluster: one free device, one held device, and their claims.
use node_disk_manager.Base.{
  ℕ, String, ◌≡◌, ◌≢◌, Bool, true, false, Option, none, some, List, [], ◌∷◌, In, refl, inl, inr,
  lookup, StringMap, arith,
}
use node_disk_manager.Base.Int.{ℤ, pos}
use node_disk_manager.Api.{
  BlockDevice, BlockDeviceClaim, ObjectReference, ObjectMeta, LabelSelector, ClaimPhase, ClaimState,
  unclaimed, claimed, active, unset, fresh,
}
use node_disk_manager.Cluster.Program.{done, ok, err, not_found}
use node_disk_manager.Cluster.Safe.{Any, Safe, start, claim_write, device_write}
use node_disk_manager.Cluster.Run.{Replies, run}
use node_disk_manager.Select.Eligible.{BuildsTagRequirement}
use node_disk_manager.Select.Filters.{block_device_tag_label, get_requested_capacity}
use node_disk_manager.Select.Sound.{Satisfies}
use node_disk_manager.Claim.{
  reconcile, claimed_device, released_device, with_finalizer, without_finalizer, bound_to,
  block_device_claim_finalizer,
}
use node_disk_manager.Claim.Allowed.{Allowed, HeldBy, RefersTo}
use node_disk_manager.Claim.Sound.{reconcile-Safe}
use node_disk_manager.Claim.Progress.{reconcile_binds, reconcile_frees}

abbrev meta_of : String → Option ℕ → List String → ObjectMeta
meta_of name deleted finalizers = record {
  name = name;
  namespace = "openebs";
  uid = name;
  resource_version = 7;
  deletion_timestamp = deleted;
  labels = [];
  annotations = [];
  finalizers = finalizers;
}

abbrev device_of : ClaimState → Option ObjectReference → BlockDevice
device_of state ref = record {
  type_meta = record { kind = "BlockDevice"; api_version = "openebs.io/v1alpha1" };
  meta = meta_of "sdb" none [];
  spec = record {
    aggregate_device = "";
    capacity = record { storage = 200; physical_sector_size = 4096; logical_sector_size = 512 };
    claim_ref = ref;
    details = record {
      device_type = "disk";
      drive_type = "HDD";
      logical_block_size = 512;
      physical_block_size = 4096;
      hardware_sector_size = 512;
      model = "";
      compliance = "";
      serial = "";
      vendor = "";
      firmware_revision = "";
    };
    dev_links = [];
    file_system = record { fs_type = ""; mountpoint = "" };
    node_attributes = record { node_name = "node1" };
    parent_device = "";
    partitioned = "No";
    path = "/dev/sdb";
  };
  status = record { claim_state = state; state = active };
}

abbrev claim_of : Option ℕ → List String → String → ClaimPhase → BlockDeviceClaim
claim_of deleted finalizers device_name phase = record {
  type_meta = record { kind = "BlockDeviceClaim"; api_version = "openebs.io/v1alpha1" };
  meta = meta_of "claim1" deleted finalizers;
  spec = record {
    selector = none;
    requests = ("storage", "100") ∷ [];
    device_type = "disk";
    host_name = "";
    details = record { block_volume_mode = unset; device_format = ""; allow_partition = false };
    block_device_name = device_name;
    block_device_node_attributes = record { node_name = ""; host_name = "" };
  };
  phase = phase;
}

abbrev reference_to : BlockDeviceClaim → ObjectReference
reference_to bdc = record {
  kind = bdc.type_meta.kind;
  namespace = bdc.meta.namespace;
  name = bdc.meta.name;
  uid = bdc.meta.uid;
  api_version = bdc.type_meta.api_version;
  resource_version = bdc.meta.resource_version;
}

abbrev has_reference : BlockDeviceClaim → Option ObjectReference
has_reference bdc = some (reference_to bdc)

refers_to :
    (bdc : BlockDeviceClaim) (ref : ObjectReference)
    → has_reference bdc ≡ some ref
    → RefersTo bdc ref
refers_to bdc ref e = record { same_name = cc; same_uid = cc; same_kind = cc }

abbrev hundred : String → ℤ × Bool
hundred _ = (pos 100, true)

abbrev no_key : String → Option (StringMap String → Bool)
no_key k = some (λ m. elim (lookup k m) [ none ↦ true | some _ ↦ false ])

no_key_builds : BuildsTagRequirement no_key
no_key_builds = (
  (λ m. elim (lookup block_device_tag_label m) [ none ↦ true | some _ ↦ false ]),
  refl,
  λ m. refl,
)

abbrev any_selector : LabelSelector → Bool
any_selector _ = true

abbrev waiting : BlockDeviceClaim
waiting = claim_of none [] "" fresh

abbrev leaving : BlockDeviceClaim
leaving = claim_of (some 5) (block_device_claim_finalizer ∷ []) "sdb" ClaimPhase.done

abbrev free_device : BlockDevice
free_device = device_of unclaimed none

abbrev held_device : BlockDevice
held_device = device_of claimed (some (reference_to leaving))

-- a server that knows one claim and one device and accepts every write
abbrev serving : BlockDeviceClaim → BlockDevice → Replies
serving bdc bd = record {
  claim = λ _. ok bdc;
  claim_update = λ c. ok c;
  device = λ _. ok bd;
  devices = λ _. ok (bd ∷ []);
  device_create = λ d. ok d;
  device_update = λ d. ok d;
  taints = λ _. ok [];
  job = λ _. err not_found;
  job_create = λ j. ok j;
  job_delete = λ _. err not_found;
  disk = λ _. none;
}

free-Satisfies : Satisfies hundred waiting.spec free_device
unfolding lookup
free-Satisfies = (
  record { is_active = refl; is_unclaimed = refl; not_legacy = λ e. cc },
  inl refl,
  inr (
    refl,
    record { not_sparse = λ e. cc; has_type = inr refl; fits_mode = tt; on_node = inl refl },
    omega arith,
  ),
)

reconcile-Safe_example :
    Safe (Allowed hundred) Any start (reconcile hundred no_key has_reference any_selector "claim1")
reconcile-Safe_example =
    reconcile-Safe hundred no_key has_reference any_selector no_key_builds refers_to "claim1"

reconcile_binds_example :
    (found : BlockDevice) × (ref : ObjectReference) × In found (free_device ∷ [])
    × Satisfies hundred waiting.spec found
    × (has_reference (bound_to found waiting) ≡ some ref)
    × (run
          (serving waiting free_device)
          (reconcile hundred no_key has_reference any_selector "claim1")
        ≡ (
          device_write (claimed_device ref found)
              ∷ claim_write (with_finalizer (bound_to found waiting))
              ∷ [],
          done tt,
        ))
unfolding get_requested_capacity lookup
reconcile_binds_example =
    reconcile_binds hundred no_key has_reference any_selector (serving waiting free_device)
      (λ c. (c, refl)) (λ d. (d, refl)) "claim1" waiting (free_device ∷ []) refl refl refl refl refl
      refl free_device (inl refl) free-Satisfies no_key_builds (λ c e. cc) (inl refl)

leaving-HeldBy : HeldBy leaving held_device
leaving-HeldBy = (
  refl,
  reference_to leaving,
  refl,
  record { same_name = refl; same_uid = refl; same_kind = refl },
)

held_has_reference :
    (d : BlockDevice)
    → In d (held_device ∷ [])
    → d.status.claim_state ≡ claimed
    → d.spec.claim_ref ≢ none
held_has_reference d (inl e) c =
    λ n. let lacks : held_device.spec.claim_ref ≡ none = rw e at n in absurd (cc)
held_has_reference d (inr m) c = absurd m

reconcile_frees_example :
    (found : BlockDevice) × In found (held_device ∷ [])
    × HeldBy leaving found
    × (run
          (serving leaving held_device)
          (reconcile hundred no_key has_reference any_selector "claim1")
        ≡ (
          device_write (released_device found) ∷ claim_write (without_finalizer leaving) ∷ [],
          done tt,
        ))
unfolding lookup
reconcile_frees_example =
    reconcile_frees hundred no_key has_reference any_selector (serving leaving held_device)
      (λ c. (c, refl)) (λ d. (d, refl)) "claim1" leaving (held_device ∷ []) refl refl held_device
      refl (λ e. cc) refl refl refl held_has_reference (inl refl) leaving-HeldBy
