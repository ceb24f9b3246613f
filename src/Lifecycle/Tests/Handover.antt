-- ===== src/Lifecycle/Tests/Handover.antt =====
-- A device that one claim gives up, that is wiped, and that another claim takes.
use node_disk_manager.Base.{
  eq_iff, true, remove_string, contains, lookup, false, String, none, some, [], ◌∷◌, ◌≡◌, ◌≢◌, refl,
  inl, inr,
}
use node_disk_manager.Api.{BlockDevice, BlockDeviceClaim, fresh, claimed, active, unset}
use node_disk_manager.Cluster.Program.{ok, Job}
use node_disk_manager.Cluster.Safe.{start}
use node_disk_manager.Claim.{
  release_found, names_claim, claim_block_device, take_selected, is_requested_by, generate_selector,
  find_claimed, release_claimed_block_device, get_list_of_devices, finalizer_handling,
  claim_device_for_claim, reconcile_phase, reconcile_claim, released_device, claimed_device,
  bound_to,
}
use node_disk_manager.Claim.Allowed.{HeldBy}
use node_disk_manager.Device.{after_clean, reconcile_state, reconcile_read, cleaned_device}
use node_disk_manager.Lifecycle.{
  Steps, stop, step, stored, by_claims, by_devices, ClaimRun, DeviceRun,
}
use node_disk_manager.Lifecycle.Held.{WasCleanedAfter, cleaned_before_next_claim}
use node_disk_manager.Lifecycle.Machine.{IsRun, visited, visited-IsRun}
use node_disk_manager.Lifecycle.Tests.{
  setting, disk, reference, reference_to, leaving, no_key_builds, refers_to, held,
}
use node_disk_manager.Select.Choose.{
  select_candidate, get_selected_device, get_candidate_devices, filter,
}
use node_disk_manager.Select.Filters.{
  tag_selector_required, has_tag_key, first_only, filter_block_device_name, filter_block_device_tag,
  filter_out_legacy_annotation, filter_unclaimed, filter_active, apply_filters, filter_func,
}
use node_disk_manager.Cleaner.{
  cleaning_job_name, cancel_job, removed_of, remove_job, running_of, is_cleaning_job_running,
  clean_state, clean_progress,
}

-- a claim for the device by its name
abbrev next_claim : BlockDeviceClaim
next_claim = record {
  type_meta = record { kind = "BlockDeviceClaim"; api_version = "openebs.io/v1alpha1" };
  meta = record {
    name = "claim2";
    namespace = "openebs";
    uid = "c2";
    resource_version = 2;
    deletion_timestamp = none;
    labels = [];
    annotations = [];
    finalizers = [];
  };
  spec = record {
    selector = none;
    requests = [];
    device_type = "";
    host_name = "";
    details = record { block_volume_mode = unset; device_format = ""; allow_partition = false };
    block_device_name = "bd-1";
    block_device_node_attributes = record { node_name = ""; host_name = "" };
  };
  phase = fresh;
}

abbrev wiped : Job
wiped = record {
  name = "cleanup-bd-1";
  namespace = "openebs";
  labels = [];
  image = "";
  command = [];
  args = [];
  volumes = [];
  mounts = [];
  tolerations = [];
  service_account = "";
  node_selector = [];
  pull_secrets = [];
  succeeded = 1;
}

abbrev held_device : BlockDevice
held_device = disk (some reference) claimed active

abbrev dirty_device : BlockDevice
dirty_device = stored 4 (released_device held_device)

abbrev free_device : BlockDevice
free_device = stored 5 (cleaned_device dirty_device)

abbrev taken_device : BlockDevice
taken_device = claimed_device (reference_to (bound_to free_device next_claim)) free_device

frees :
    ClaimRun setting held_device
      (released_device held_device)
      (record start { claim = some leaving; listed = held_device ∷ [] })
unfolding lookup contains remove_string node_disk_manager.Claim.reconcile reconcile_claim
    reconcile_phase finalizer_handling release_claimed_block_device get_list_of_devices find_claimed
    is_requested_by names_claim release_found
frees = (
  "claim1",
  (ok leaving, (ok (held_device ∷ []), inl (refl, refl))),
  λ read m same. elim m [ inl e ↦ e | inr n ↦ absurd n ],
)

abbrev read_wiped : String × Job
read_wiped = ("cleanup-bd-1", wiped)

recycles : DeviceRun setting dirty_device (cleaned_device dirty_device) (record start {
  listed = dirty_device ∷ [];
  jobs = read_wiped ∷ read_wiped ∷ read_wiped ∷ [];
  deleted = "cleanup-bd-1" ∷ [];
})
unfolding lookup remove_string node_disk_manager.Device.reconcile reconcile_read reconcile_state
    after_clean node_disk_manager.Cleaner.clean clean_progress clean_state is_cleaning_job_running
    running_of remove_job removed_of cancel_job cleaning_job_name
recycles = (
  "bd-1",
  (ok dirty_device, (ok wiped, (ok wiped, (ok wiped, inr (ok wiped, inl (refl, refl)))))),
  λ read m same. elim m [ inl e ↦ e | inr n ↦ absurd n ],
)

takes :
    ClaimRun setting free_device taken_device
      (record start { claim = some next_claim; listed = free_device ∷ [] })
unfolding lookup node_disk_manager.Claim.reconcile reconcile_claim reconcile_phase
    claim_device_for_claim get_list_of_devices generate_selector take_selected claim_block_device
    filter get_candidate_devices get_selected_device select_candidate filter_func apply_filters
    filter_active filter_unclaimed filter_out_legacy_annotation filter_block_device_tag
    filter_block_device_name first_only has_tag_key tag_selector_required
takes = (
  "claim2",
  (ok next_claim, (ok (free_device ∷ []), inl (refl, refl))),
  λ read m same. elim m [ inl e ↦ e | inr n ↦ absurd n ],
)

handover : Steps setting held_device (stored 6 taken_device)
handover =
    step held_device (released_device held_device) (stored 6 taken_device) 4
      (by_claims (record start { claim = some leaving; listed = held_device ∷ [] }) frees)
      (step dirty_device (cleaned_device dirty_device) (stored 6 taken_device) 5
        (by_devices
          (record start {
            listed = dirty_device ∷ [];
            jobs = read_wiped ∷ read_wiped ∷ read_wiped ∷ [];
            deleted = "cleanup-bd-1" ∷ [];
          })
          recycles)
        (step free_device taken_device (stored 6 taken_device) 6
          (by_claims (record start { claim = some next_claim; listed = free_device ∷ [] }) takes)
          (stop (stored 6 taken_device))))

held_next : HeldBy next_claim (stored 6 taken_device)
held_next = (
  refl,
  reference_to (bound_to free_device next_claim),
  refl,
  record { same_name = refl; same_uid = refl; same_kind = refl },
)

differ : leaving.meta.uid ≢ next_claim.meta.uid
differ = λ e. let f : false ≡ true = (eq_iff "c1" "c2").1 e in absurd cc

cleaned_before_next_claim_example :
    WasCleanedAfter setting leaving held_device (stored 6 taken_device) handover
cleaned_before_next_claim_example =
    cleaned_before_next_claim setting no_key_builds refers_to leaving next_claim held_device
      (stored 6 taken_device) handover held held_next differ

visited-IsRun_example : IsRun (visited setting held_device (stored 6 taken_device) handover)
visited-IsRun_example =
    visited-IsRun setting no_key_builds refers_to held_device (stored 6 taken_device) handover
